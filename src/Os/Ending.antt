-- ===== src/Os/Ending.antt =====
-- Programs that end: in every run, whatever the answers are, but for endless interruptions of reads.
use hashline_rs.Prelude.{
  ℕ, suc, ◌≤◌, ◌≡◌, refl, Bool, true, false, if◌then◌else◌, Result, ok, err, arith,
}
use hashline_rs.Os.{Call, Answer, Program, ret, call, running, Task, ◌>>=◌, caught, read_some}
use hashline_rs.Snapshot.Load.{is_interrupted}

-- the answer of a read that a signal has interrupted
abbrev pub interrupted : (c : Call) → Answer c → Bool
interrupted (read_some d n) (err e) = is_interrupted e.error_kind
interrupted _ a = false

-- Every run ends in which at most `n` reads are interrupted.
pub data Ends {A : Type 0} : ℕ → Program A → Type 0 where
  done : {n : ℕ} {a : A} → Ends n (ret a)
  asked :
      {n : ℕ} {c : Call} {k : Answer c → Program A}
      → ((a : Answer c) → interrupted c a ≡ false → Ends n (k a))
      → ((a : Answer c) (m : ℕ) → interrupted c a ≡ true → n ≡ suc m → Ends m (k a))
      → Ends n (call c k)

-- a call that is no read
pub plain :
    {A : Type 0} {n : ℕ} {c : Call} {k : Answer c → Program A}
    → ((a : Answer c) → interrupted c a ≡ false)
    → ((a : Answer c) → Ends n (k a))
    → Ends n (call c k)
plain never h = asked (λ a _. h a) (λ a m e _. absurd (let f = never a in ground arith))

pub Ends->>= :
    {E A B : Type 0} {n : ℕ} (m : Task E A) (f : A → Task E B)
    → Ends n m
    → ((k : ℕ) → k ≤ n → (a : A) → Ends k (f a))
    → Ends n (m >>= f)
Ends->>= (ret (ok a)) f done h = h _ (omega arith) a
Ends->>= (ret (err e)) f done h = done
Ends->>= {n = n} (call c k) f (asked g i) h =
    asked (λ a e. Ends->>= (k a) f (g a e) h)
      (λ a m e q. Ends->>= (k a) f (i a m e q) (λ j le. h j (omega arith)))
Ends->>= running f never h = elim never [ ]

pub Ends-if :
    {A : Type 0} {n : ℕ} (b : Bool) {m k : Program A}
    → (b ≡ true → Ends n m)
    → (b ≡ false → Ends n k)
    → Ends n (if b then m else k)
Ends-if true f g = f refl
Ends-if false f g = g refl

pub Ends-check :
    {E A B : Type 0} {n : ℕ} (r : Result E A) {f : A → Task E B}
    → ((a : A) → r ≡ ok a → Ends n (f a))
    → Ends n (ret r >>= f)
Ends-check (ok a) h = h a refl
Ends-check (err e) h = done

pub Ends-caught : {E F A : Type 0} {n : ℕ} (m : Task E A) → Ends n m → Ends n (caught {F = F} m)
Ends-caught (ret r) done = done
Ends-caught (call c k) (asked g i) =
    asked (λ a e. Ends-caught (k a) (g a e)) (λ a m e q. Ends-caught (k a) (i a m e q))
Ends-caught running never = elim never [ ]
