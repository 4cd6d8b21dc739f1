-- ===== src/ApiServer/Starting.antt =====
-- `ApiServer::start` and the thread that it joins.
use klevret_english_ver.Base.{◌≢◌}
use klevret_english_ver.ApiServer.{serving, finished, ApiServer, Step, Reach}

-- The loop of the acceptor has no end.
never_finished : (s : ApiServer) → Reach s → s.acceptor ≢ finished
never_finished _ Reach.start = λ h. cc
never_finished _ (Reach.later r (Step.construct at_m)) = λ h. cc
never_finished _ (Reach.later {s} r (Step.throw at_m)) = never_finished s r
never_finished _ (Reach.later r (Step.accept_fails at_a)) = λ h. cc
never_finished _ (Reach.later r (Step.accept at_a)) = λ h. cc
never_finished _ (Reach.later r (Step.start_handler at_a)) = λ h. cc
never_finished _ (Reach.later {s} r (Step.join at_m done)) = never_finished s r

pub start_never_returns : (s : ApiServer) → Reach s → s.main ≢ serving
start_never_returns _ Reach.start = λ h. cc
start_never_returns _ (Reach.later r (Step.construct at_m)) = λ h. cc
start_never_returns _ (Reach.later r (Step.throw at_m)) = λ h. cc
start_never_returns _ (Reach.later {s} r (Step.accept_fails at_a)) = start_never_returns s r
start_never_returns _ (Reach.later {s} r (Step.accept at_a)) = start_never_returns s r
start_never_returns _ (Reach.later {s} r (Step.start_handler at_a)) = start_never_returns s r
start_never_returns _ (Reach.later {s} r (Step.join at_m done)) = λ h. never_finished s r done
