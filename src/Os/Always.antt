-- ===== src/Os/Always.antt =====
-- What holds at the end of every run of a program, whatever the answers were.
use hashline_rs.Prelude.{
  Bool, true, false, if◌then◌else◌, ◌≡◌, refl, ap, List, [], ◌∷◌, ◌++◌, Result, ok, err, ◌⊎◌,
}
use hashline_rs.Os.{Call, Answer, Program, ret, call, running, Task, caught, ◌>>=◌}

pub record Event : Type 0 where
  pub asked : Call
  pub answer : Answer asked

abbrev pub event : (c : Call) → Answer c → Event
event c a = record { asked = c; answer = a }

-- The calls made so far, the latest first.
abbrev pub Log : Type 0
Log = List Event

pub data Always {A : Type 0} (Q : Log → A → Type 0) : Log → Program A → Type 0 where
  ends : {log : Log} {a : A} → Q log a → Always Q log (ret a)
  asks :
      {log : Log} {c : Call} {k : Answer c → Program A}
      → ((a : Answer c) → Always Q (event c a ∷ log) (k a))
      → Always Q log (call c k)
  -- nothing is claimed of a run that has not ended
  still : {log : Log} → Always Q log running

-- what must hold behind the first part of a task for the whole to end in `Q`
abbrev pub Then :
    {E A B : Type 0} → (Log → Result E B → Type 0) → (A → Task E B) → Log → Result E A → Type 0
Then Q f log (ok a) = Always Q log (f a)
Then Q f log (err e) = Q log (err e)

pub Always->>= :
    {E A B : Type 0} (Q : Log → Result E B → Type 0) (m : Task E A) (f : A → Task E B) {log : Log}
    → Always (Then Q f) log m
    → Always Q log (m >>= f)
Always->>= Q (ret (ok a)) f (ends h) = h
Always->>= Q (ret (err e)) f (ends h) = ends h
Always->>= Q (call c k) f (asks h) = asks (λ a. Always->>= Q (k a) f (h a))
Always->>= Q running f still = still

pub Always-mono :
    {A : Type 0} {P Q : Log → A → Type 0} (m : Program A) {log : Log}
    → ((l : Log) (a : A) → P l a → Q l a)
    → Always P log m
    → Always Q log m
Always-mono (ret a) f (ends h) = ends (f _ a h)
Always-mono (call c k) f (asks h) = asks (λ a. Always-mono (k a) f (h a))
Always-mono running f still = still

pub Always-caught :
    {E F A : Type 0} {Q : Log → Result F (Result E A) → Type 0} (m : Task E A) {log : Log}
    → Always (λ l r. Q l (ok r)) log m
    → Always Q log (caught m)
Always-caught (ret r) (ends h) = ends h
Always-caught (call c k) (asks h) = asks (λ a. Always-caught (k a) (h a))
Always-caught running still = still

-- both branches of a test
pub Always-if :
    {A : Type 0} {Q : Log → A → Type 0} {log : Log} (b : Bool) {m n : Program A}
    → (b ≡ true → Always Q log m)
    → (b ≡ false → Always Q log n)
    → Always Q log (if b then m else n)
Always-if true f g = f refl
Always-if false f g = g refl

-- a `?` on a computed result
pub Always-check :
    {E A B : Type 0} {Q : Log → Result E B → Type 0} {log : Log} (r : Result E A) {f : A → Task E B}
    → ((a : A) → r ≡ ok a → Always Q log (f a))
    → ((e : E) → r ≡ err e → Q log (err e))
    → Always Q log (ret r >>= f)
Always-check (ok a) f g = f a refl
Always-check (err e) f g = ends (g e refl)

-- the calls of a run come behind those before it
pub Always-grows :
    {A : Type 0} (m : Program A) {log : Log}
    → Always (λ l a. (later : Log) × (l ≡ later ++ log)) log m
Always-grows {A} m {log} = from m log ([], refl)
  where
    from :
        (m : Program A) (l : Log)
        → ((later : Log) × (l ≡ later ++ log))
        → Always (λ k a. (later : Log) × (k ≡ later ++ log)) l m
    from (ret a) l h = ends h
    from (call c k) l (later, e) =
        asks (λ a. from (k a) (event c a ∷ l) (event c a ∷ later, ap (◌∷◌ (event c a)) e))
    from running l h = still

-- one of the events
abbrev pub Any : (Event → Type 0) → Log → Type 0
Any P [] = ⊥
Any P (e ∷ log) = P e ⊎ Any P log

pub Always-both :
    {A : Type 0} {P Q : Log → A → Type 0} (m : Program A) {log : Log}
    → Always P log m
    → Always Q log m
    → Always (λ l a. P l a × Q l a) log m
Always-both (ret a) (ends p) (ends q) = ends (p, q)
Always-both (call c k) (asks f) (asks g) = asks (λ a. Always-both (k a) (f a) (g a))
Always-both running still still = still
