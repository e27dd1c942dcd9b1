-- ===== src/Os/Quiet.antt =====
-- Programs that change no file.
use hashline_rs.Prelude.{◌≡◌, Bool, true, false, if◌then◌else◌, [], ◌∷◌, Result, ok, err}
use hashline_rs.Os.{
  Call, Answer, Program, ret, call, running, Task, caught, ◌>>=◌, create_new, write_all, sync_all,
  barrier_sync, remove_file, rename, hard_link,
}
use hashline_rs.Os.Always.{Log, Always, ends, asks, still}

-- the calls that neither create, write, sync, move nor remove a file
abbrev pub is_quiet : Call → Bool
is_quiet (create_new p) = false
is_quiet (write_all d b) = false
is_quiet (sync_all d) = false
is_quiet (barrier_sync d) = false
is_quiet (rename a b) = false
is_quiet (hard_link a b) = false
is_quiet (remove_file p) = false
is_quiet _ = true

pub data Reads {A : Type 0} : Program A → Type 0 where
  done : {a : A} → Reads (ret a)
  asked :
      {c : Call} {k : Answer c → Program A}
      → is_quiet c ≡ true
      → ((a : Answer c) → Reads (k a))
      → Reads (call c k)
  going : Reads running

pub Reads->>= :
    {E A B : Type 0} (m : Task E A) (f : A → Task E B)
    → Reads m
    → ((a : A) → Reads (f a))
    → Reads (m >>= f)
Reads->>= (ret (ok a)) f done h = h a
Reads->>= (ret (err e)) f done h = done
Reads->>= (call c k) f (asked q g) h = asked q (λ a. Reads->>= (k a) f (g a) h)
Reads->>= running f going h = going

pub Reads-if :
    {A : Type 0} (b : Bool) {m k : Program A} → Reads m → Reads k → Reads (if b then m else k)
Reads-if true p q = p
Reads-if false p q = q

pub Reads-check :
    {E A B : Type 0} (r : Result E A) {f : A → Task E B}
    → ((a : A) → Reads (f a))
    → Reads (ret r >>= f)
Reads-check (ok a) h = h a
Reads-check (err e) h = done

-- a log of such calls only
abbrev pub Quiet : Log → Type 0
Quiet [] = Unit {0}
Quiet (e ∷ log) = (is_quiet e.asked ≡ true) × Quiet log

pub Reads-Quiet :
    {A : Type 0} {m : Program A} {log : Log} → Reads m → Quiet log → Always (λ l a. Quiet l) log m
Reads-Quiet done q = ends q
Reads-Quiet (asked h g) q = asks (λ a. Reads-Quiet (g a) (h, q))
Reads-Quiet going q = still

pub Reads-caught : {E F A : Type 0} (m : Task E A) → Reads m → Reads (caught {F = F} m)
Reads-caught (ret r) done = done
Reads-caught (call c k) (asked q g) = asked q (λ a. Reads-caught (k a) (g a))
Reads-caught running going = going
