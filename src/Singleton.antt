-- ===== src/Singleton.antt =====
-- `ApiServer::instance` of dhcp/src/api_server.cpp and `Console::Instance` of cli/src/Console.cpp: the
-- pointer is tested, and tested again behind the mutex before the object is made. Console frees the
-- mutex at the end of the block (`releases`); ApiServer calls `lock` and never `unlock`. A step is one
-- access by one of the threads, in any order.
pub mod Once
use klevret_english_ver.Base.{ℕ, ◌+◌, ◌≡◌, ◌≢◌, Bool, ◌==◌, if◌then◌else◌, Option, none, some}

-- Where a call of `instance` stands.
pub data Pc : Type 0 where
  calling : Pc
  waiting : Pc  -- before `lock`
  locked : Pc  -- before the second test
  creating : Pc
  leaving : Pc  -- at the end of the block
  returned : Pc

-- `created` counts the objects; the pointer is null as long as there is none.
pub record System : Type 0 where
  pub created : ℕ
  pub mutex : Option ℕ
  pub pc : ℕ → Pc

unfoldable pub update : (ℕ → Pc) → ℕ → Pc → ℕ → Pc
update pc i p j = if i == j then p else pc j

pub data Step (releases : Bool) (s : System) : System → Type 0 where
  find_null :
      (i : ℕ)
      → s.pc i ≡ calling
      → s.created ≡ 0
      → Step releases s (record s { pc = update s.pc i waiting })
  find_object :
      (i : ℕ)
      → s.pc i ≡ calling
      → s.created ≢ 0
      → Step releases s (record s { pc = update s.pc i returned })
  lock :
      (i : ℕ)
      → s.pc i ≡ waiting
      → s.mutex ≡ none
      → Step releases s (record s { mutex = some i; pc = update s.pc i locked })
  find_null_again :
      (i : ℕ)
      → s.pc i ≡ locked
      → s.created ≡ 0
      → Step releases s (record s { pc = update s.pc i creating })
  find_object_again :
      (i : ℕ)
      → s.pc i ≡ locked
      → s.created ≢ 0
      → Step releases s (record s { pc = update s.pc i leaving })
  create :
      (i : ℕ)
      → s.pc i ≡ creating
      → Step releases s (record s { created = s.created + 1; pc = update s.pc i leaving })
  leave :
      (i : ℕ)
      → s.pc i ≡ leaving
      → Step releases s
          (record s { mutex = if releases then none else s.mutex; pc = update s.pc i returned })

-- Every thread is about to call.
abbrev pub initial : System
initial = record { created = 0; mutex = none; pc = λ _. calling }

-- Any number of steps.
pub data Run (releases : Bool) (s : System) : System → Type 0 where
  start : Run releases s s
  later : {t u : System} → Run releases s t → Step releases t u → Run releases s u

abbrev pub Reach : Bool → System → Type 0
Reach releases s = Run releases initial s
