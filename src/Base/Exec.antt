-- ===== src/Base/Exec.antt =====
-- Methods that read and write a store, draw fresh identifiers, read the clock and may raise. What was
-- written before a raise stays written, so the world comes back beside the error too.
use Prim.Native.String.{◌++◌, slice}
use contract_evidence_os.Prelude.{
  ℕ, ◌+◌, ◌*◌, String, Bool, true, false, Option, none, some, List, [], ◌∷◌,
}

-- A `datetime` in UTC, in microseconds.
abbrev pub Datetime : Type 0
Datetime = ℕ

-- `timedelta(seconds=n)`
abbrev pub seconds : ℕ → ℕ
seconds n = n * 1000000

-- What the code takes from `uuid` and from the clock: the n-th draw of `uuid4().hex` and the n-th
-- reading of `utc_now()`.
pub record Env : Type 0 where
  pub uuid4_hex : ℕ → String
  pub clock : ℕ → Datetime

pub record World (S : Type 0) : Type 0 where
  pub store : S
  pub draws : ℕ
  pub readings : ℕ

pub data Error : Type 0 where
  key_error : String → Error
  value_error : String → Error
  index_error : Error
  stop_iteration : Error
  -- not an exception of the code: a loop that the fuel of the model cut short
  out_of_fuel : Error

pub data Result {ℓ} (A : Type ℓ) : Type ℓ where
  ok : A → Result A
  err : Error → Result A

abbrev pub Exec : Type 0 → Type 0 → Type 0
Exec S A = World S → Result A × World S

module _ {S A : Type 0} where
  abbrev pub pure : A → Exec S A
  pure a w = (ok a, w)

  abbrev pub raise : Error → Exec S A
  raise e w = (err e, w)

  abbrev pub gets : (S → A) → Exec S A
  gets f w = (ok (f w.store), w)

  -- `if x is None: raise KeyError(key)`
  abbrev pub or_key_error : String → Option A → Exec S A
  or_key_error key none = raise (key_error key)
  or_key_error key (some a) = pure a

  -- Indexing that is out of range.
  abbrev pub or_index_error : Option A → Exec S A
  or_index_error none = raise index_error
  or_index_error (some a) = pure a

abbrev pub modify : {S : Type 0} → (S → S) → Exec S Unit
modify f w = (ok tt, record w { store = f w.store })

-- `uuid4().hex`
abbrev pub uuid4 : {S : Type 0} → Env → Exec S String
uuid4 env w = (ok (env.uuid4_hex w.draws), record w { draws = w.draws + 1 })

-- `f"{prefix}{uuid4().hex[:10]}"`
abbrev pub fresh_id : Env → String → ℕ → String
fresh_id env prefix n = prefix ++ slice (env.uuid4_hex n) 0 10

abbrev pub new_id : {S : Type 0} → Env → String → Exec S String
new_id env prefix w = (ok (fresh_id env prefix w.draws), record w { draws = w.draws + 1 })

abbrev pub utc_now : {S : Type 0} → Env → Exec S Datetime
utc_now env w = (ok (env.clock w.readings), record w { readings = w.readings + 1 })

-- `now = utc_now() if now is None else now`
abbrev pub now_or : {S : Type 0} → Env → Option Datetime → Exec S Datetime
now_or env none = utc_now env
now_or env (some now) = pure now

module _ {S A B : Type 0} where
  abbrev pub continue : Result A → (A → Exec S B) → Exec S B
  continue (ok a) f w = f a w
  continue (err e) f w = (err e, w)

  infixl 10 ◌>>=◌ ◌>>◌
  abbrev pub ◌>>=◌ : Exec S A → (A → Exec S B) → Exec S B
  ◌>>=◌ m f w = let (r, w') = m w in continue r f w'

  abbrev pub ◌>>◌ : Exec S A → Exec S B → Exec S B
  m >> n = m >>= λ _. n

-- `if c: m`
abbrev pub when : {S : Type 0} → Bool → Exec S Unit → Exec S Unit
when true m = m
when false m = pure tt

-- `if x is not None: f(x)`
abbrev pub when_some : {S A : Type 0} → Option A → (A → Exec S Unit) → Exec S Unit
when_some none f = pure tt
when_some (some a) f = f a

-- `for x in xs: body(x)`
unfoldable pub for_each : {S A : Type 0} → List A → (A → Exec S Unit) → Exec S Unit
for_each [] body = pure tt
for_each (x ∷ xs) body = body x >> for_each xs body

-- What both halves of a block keep, the block keeps.
pub bind_keeps :
    {S A B : Type 0} (P : S → Type 0) (m : Exec S A) (f : A → Exec S B) (w : World S)
    → P (m w).1.store
    → ((a : A) (w' : World S) → P w'.store → P (f a w').1.store)
    → P (◌>>=◌ m f w).1.store
bind_keeps {S} {A} {B} P m f w h k = let (r, w') = m w in go r w' h
  where
    go : (r : Result A) (w' : World S) → P w'.store → P (continue r f w').1.store
    go (ok a) w' h = k a w' h
    go (err e) w' h = h

-- `x or X(...)`, where the new object's time stamp defaults to a reading of the clock.
abbrev pub or_new : {S A : Type 0} → Env → Option A → (Datetime → A) → Exec S A
or_new env (some a) make = pure a
or_new env none make = do now ← utc_now env; pure (make now)
