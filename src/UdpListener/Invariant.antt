-- ===== src/UdpListener/Invariant.antt =====
-- What holds at every step of the receiving thread and the loop.
use klevret_english_ver.Base.{
  ◌≡◌, refl, Bool, true, false, List, [], ◌∷◌, ◌++◌, Bytes, Option, none, some, Result, ok,
  ok_injective, ◌&&◌, >>=-eq-ok, ◌>>=◌,
}
use klevret_english_ver.UdpListener.{
  Thread, receiver_thread, main_thread, Receiver, receiving, listening, received, pushing,
  unlocking, Main, polling, testing, tested, filled, fronting, popping, leaving, handling, ended,
  undefined_behaviour, UdpServer, is_blank,
}

-- What the receiver holds that is not in the queue yet.
abbrev pub arriving : Receiver → List Bytes
arriving receiving = []
arriving listening = []
arriving (received datagram) = datagram ∷ []
arriving (pushing datagram) = datagram ∷ []
arriving unlocking = []

-- What the loop has taken from the queue and not handled, which is also where an exception ends it.
abbrev pub taken : Main → List Bytes
taken (leaving datagram) = datagram ∷ []
taken (handling datagram) = datagram ∷ []
taken (ended datagram cause) = datagram ∷ []
taken _ = []

abbrev pub receiver_holds : Receiver → Bool
receiver_holds receiving = false
receiver_holds listening = false
receiver_holds (received datagram) = false
receiver_holds (pushing datagram) = true
receiver_holds unlocking = true

abbrev pub main_holds : Main → Bool
main_holds testing = true
main_holds (tested blank) = true
main_holds fronting = true
main_holds (popping datagram) = true
main_holds (leaving datagram) = true
main_holds _ = false

-- Who has the mutex, by where the threads stand.
abbrev pub holder : Bool → Bool → Option Thread
holder true _ = some receiver_thread
holder false true = some main_thread
holder false false = none

-- What the loop relies on where it stands.
abbrev pub Relies : Main → List Bytes → Type 0
Relies (tested blank) queue = is_blank queue ≡ blank
Relies filled queue = is_blank queue ≡ false
Relies fronting queue = is_blank queue ≡ false
Relies (popping datagram) queue = (rest : List Bytes) × (queue ≡ datagram ∷ rest)
Relies undefined_behaviour queue = ⊥
Relies _ queue = Unit

module _ {S : Type 0} (handle : S → Bytes → Result (S × Option Bytes)) where
  -- The datagrams handled one by one.
  unfoldable pub run_all : S → List Bytes → Result S
  run_all s [] = ok s
  run_all s (datagram ∷ datagrams) = handle s datagram >>= (λ (next, reply). run_all next datagrams)

  pub run_all-snoc :
      (s : S) (datagrams : List Bytes) (datagram : Bytes) {t next : S} {reply : Option Bytes}
      → run_all s datagrams ≡ ok t
      → handle t datagram ≡ ok (next, reply)
      → run_all s (datagrams ++ datagram ∷ []) ≡ ok next
  unfolding run_all
  run_all-snoc s [] datagram ran handled = let same = ok_injective ran in rw same (rw handled refl)
  run_all-snoc s (first ∷ datagrams) datagram ran handled =
      let ((t', reply), once, others) = >>=-eq-ok (handle s first) _ ran in
      rw once (run_all-snoc t' datagrams datagram others handled)

  pub record Inv (s : S) (u : UdpServer S) : Type 0 where
    pub exclusive : (receiver_holds u.receiver && main_holds u.main) ≡ false
    pub held : u.mutex ≡ holder (receiver_holds u.receiver) (main_holds u.main)
    pub relies : Relies u.main u.queue
    pub in_order : u.datagrams ≡ u.handled ++ (taken u.main ++ (u.queue ++ arriving u.receiver))
    pub served : run_all s u.handled ≡ ok u.state

  -- At a free mutex neither thread holds it.
  pub holder_free :
      (a b : Bool) {mutex : Option Thread}
      → mutex ≡ none
      → mutex ≡ holder a b
      → (a ≡ false) × (b ≡ false)
  holder_free true b free held = cc
  holder_free false true free held = cc
  holder_free false false free held = (refl, refl)

  pub holding_alone : (a b : Bool) → (a && b) ≡ false → b ≡ true → a ≡ false
  holding_alone true b alone h = cc
  holding_alone false b alone h = refl

  pub Relies-push :
      (m : Main) (queue : List Bytes) (datagram : Bytes)
      → main_holds m ≡ false
      → Relies m queue
      → Relies m (queue ++ datagram ∷ [])
  Relies-push polling queue datagram alone r = r
  Relies-push testing queue datagram alone r = cc
  Relies-push (tested blank) queue datagram alone r = cc
  Relies-push filled [] datagram alone r = cc
  Relies-push filled (first ∷ queue) datagram alone r = refl
  Relies-push fronting queue datagram alone r = cc
  Relies-push (popping first) queue datagram alone r = cc
  Relies-push (leaving first) queue datagram alone r = cc
  Relies-push (handling first) queue datagram alone r = r
  Relies-push (ended first cause) queue datagram alone r = r
  Relies-push undefined_behaviour queue datagram alone r = r
