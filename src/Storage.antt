-- ===== src/Storage.antt =====
-- go/io.go: the `Medium` interface with all its methods, over a state that they change. A method
-- that changes the state gives its result and the new state, also when it fails.
pub mod Contract
use go_io.Common.{Bool, false, List, ◌≡◌, refl}
use go_io.Common.Bytes.{Bytes}
use go_io.Common.Results.{Result, ok, err, ◌>>=◌}
use go_io.Medium.{Mode, FileInfo, DirEntry}

abbrev pub Outcome : Type 0 → Type 0 → Type 0
Outcome State A = Result A × State

-- `type Medium interface`; `File`, `Reader` and `Writer` are the open files and streams.
pub record Storage : Type 1 where
  pub State : Type 0
  pub File : Type 0
  pub Reader : Type 0
  pub Writer : Type 0
  pub read : State → Bytes → Result Bytes
  pub write : State → Bytes → Bytes → Outcome State Unit
  pub write_mode : State → Bytes → Bytes → Mode → Outcome State Unit
  pub ensure_dir : State → Bytes → Outcome State Unit
  pub is_file : State → Bytes → Bool
  pub delete : State → Bytes → Outcome State Unit
  pub delete_all : State → Bytes → Outcome State Unit
  pub rename : State → Bytes → Bytes → Outcome State Unit
  pub list : State → Bytes → Result (List DirEntry)
  pub stat : State → Bytes → Result FileInfo
  pub open_file : State → Bytes → Result File
  pub create : State → Bytes → Outcome State Writer
  pub append : State → Bytes → Outcome State Writer
  pub read_stream : State → Bytes → Result Reader
  pub write_stream : State → Bytes → Outcome State Writer
  pub exists : State → Bytes → Bool
  pub is_dir : State → Bytes → Bool

-- One method that may change the state of `M`, at paths that `P` allows in that state.
pub data Step (M : Storage) (P : M.State → Bytes → Type 0) : M.State → M.State → Type 0 where
  write : (s : M.State) (p content : Bytes) → P s p → Step M P s (M.write s p content).1
  write_mode :
      (s : M.State) (p content : Bytes) (mode : Mode)
      → P s p
      → Step M P s (M.write_mode s p content mode).1
  ensure_dir : (s : M.State) (p : Bytes) → P s p → Step M P s (M.ensure_dir s p).1
  delete : (s : M.State) (p : Bytes) → P s p → Step M P s (M.delete s p).1
  delete_all : (s : M.State) (p : Bytes) → P s p → Step M P s (M.delete_all s p).1
  rename : (s : M.State) (p q : Bytes) → P s p → P s q → Step M P s (M.rename s p q).1
  create : (s : M.State) (p : Bytes) → P s p → Step M P s (M.create s p).1
  append : (s : M.State) (p : Bytes) → P s p → Step M P s (M.append s p).1
  write_stream : (s : M.State) (p : Bytes) → P s p → Step M P s (M.write_stream s p).1

pub data Run (M : Storage) (P : M.State → Bytes → Type 0) (s : M.State) : M.State → Type 0 where
  stop : Run M P s s
  next : {t u : M.State} → Run M P s t → Step M P t u → Run M P s u

-- What the methods that leave the state alone give at the paths that `P` allows is the same in two
-- states.
pub record Agree (M : Storage) (P : Bytes → Type 0) (y z : M.State) : Type 0 where
  pub read : (p : Bytes) → P p → M.read y p ≡ M.read z p
  pub is_file : (p : Bytes) → P p → M.is_file y p ≡ M.is_file z p
  pub list : (p : Bytes) → P p → M.list y p ≡ M.list z p
  pub stat : (p : Bytes) → P p → M.stat y p ≡ M.stat z p
  pub open_file : (p : Bytes) → P p → M.open_file y p ≡ M.open_file z p
  pub read_stream : (p : Bytes) → P p → M.read_stream y p ≡ M.read_stream z p
  pub exists : (p : Bytes) → P p → M.exists y p ≡ M.exists z p
  pub is_dir : (p : Bytes) → P p → M.is_dir y p ≡ M.is_dir z p

-- `if err != nil { return err }`, and an operation on the path that changes the state.
abbrev pub on_path :
    {State A : Type 0} → Result Bytes → State → (Bytes → Outcome State A) → Outcome State A
on_path (err e) s run = (err e, s)
on_path (ok path) s run = run path

-- `if err != nil { return false }`
abbrev pub on_test : Result Bytes → (Bytes → Bool) → Bool
on_test (err e) test = false
on_test (ok path) test = test path

-- An operation that is not run for want of a path leaves the state alone.
pub on_path-Run :
    (M : Storage) {A : Type 0} {P : M.State → Bytes → Type 0} {s u : M.State} (r : Result Bytes)
    (run : Bytes → Outcome M.State A)
    → Run M P s u
    → ((path : Bytes) → r ≡ ok path → Run M P s (run path).1)
    → Run M P s (on_path r u run).1
on_path-Run M (err e) run before step = before
on_path-Run M (ok path) run before step = step path refl

-- Calls that differ only in what is done with the path.
pub bind-Agree :
    {A : Type 0} (r : Result Bytes) (f g : Bytes → Result A)
    → ((path : Bytes) → r ≡ ok path → f path ≡ g path)
    → (r >>= f) ≡ (r >>= g)
bind-Agree (err e) f g same = refl
bind-Agree (ok path) f g same = same path refl

pub on_test-Agree :
    (r : Result Bytes) (f g : Bytes → Bool)
    → ((path : Bytes) → r ≡ ok path → f path ≡ g path)
    → on_test r f ≡ on_test r g
on_test-Agree (err e) f g same = refl
on_test-Agree (ok path) f g same = same path refl

-- Every path is allowed.
abbrev pub IsAny : {S : Type 0} → S → Bytes → Type 0
IsAny s path = Unit
