-- ===== src/Effect/Runs.antt =====
-- Programs, and their runs in an environment.
use fluent_pvc_operator.Prelude.{ℕ, suc, List, [], ◌∷◌, All}
use fluent_pvc_operator.Kube.{Outcome, ok, err, panicked}
use fluent_pvc_operator.Effect.Calls.{Call, Answer}

pub data Program (A : Type 0) : Type 0 where
  ret : A → Program A
  call : (c : Call) → (Answer c → Program A) → Program A

-- One call, as a program.
abbrev pub ask : (c : Call) → Program (Answer c)
ask c = call c ret

infixl 10 ◌>>=◌ ◌>>◌
abbrev pub ◌>>=◌ : {A B : Type 0} → Program A → (A → Program B) → Program B
ret a >>= f = f a
call c k >>= f = call c (λ r. k r >>= f)

abbrev pub ◌>>◌ : {A B : Type 0} → Program A → Program B → Program B
m >> n = m >>= λ _. n

-- Go's `if err := …; err != nil { return … }` around a function of the operator.
abbrev pub and_then : {A B : Type 0} → Outcome A → (A → Program (Outcome B)) → Program (Outcome B)
and_then (ok a) f = f a
and_then (err e) f = ret (err e)
and_then panicked f = ret panicked

abbrev pub Environment : Type 0
Environment = ℕ → (c : Call) → Answer c

-- The result of the run that begins with call number n.
abbrev pub result : {A : Type 0} → Environment → ℕ → Program A → A
result env n (ret a) = a
result env n (call c k) = result env (suc n) (k (env n c))

-- The calls of that run, in order.
abbrev pub calls : {A : Type 0} → Environment → ℕ → Program A → List Call
calls env n (ret a) = []
calls env n (call c k) = c ∷ calls env (suc n) (k (env n c))

-- Whatever the environment answers, every call satisfies `P` and the result `Q`.
abbrev pub Ensures : {A : Type 0} → (Call → Type 0) → (A → Type 0) → Program A → Type 0
Ensures P Q (ret a) = Q a
Ensures P Q (call c k) = P c × ((r : Answer c) → Ensures P Q (k r))

pub Ensures-map :
    {A : Type 0} (P R : Call → Type 0) (Q : A → Type 0) (m : Program A)
    → ((c : Call) → P c → R c)
    → Ensures P Q m
    → Ensures R Q m
Ensures-map P R Q (ret a) f h = h
Ensures-map P R Q (call c k) f h = (f c h.0, λ r. Ensures-map P R Q (k r) f (h.1 r))

pub Ensures-bind :
    {A B : Type 0} (P : Call → Type 0) (R : A → Type 0) (Q : B → Type 0) (m : Program A)
    (f : A → Program B)
    → Ensures P R m
    → ((a : A) → R a → Ensures P Q (f a))
    → Ensures P Q (m >>= f)
Ensures-bind P R Q (ret a) f h k = k a h
Ensures-bind P R Q (call c m) f h k = (h.0, λ r. Ensures-bind P R Q (m r) f (h.1 r) k)

pub Ensures-calls :
    {A : Type 0} (P : Call → Type 0) (Q : A → Type 0) (env : Environment) (n : ℕ) (m : Program A)
    → Ensures P Q m
    → All P (calls env n m)
Ensures-calls P Q env n (ret a) h = tt
Ensures-calls P Q env n (call c k) h =
    (h.0, Ensures-calls P Q env (suc n) (k (env n c)) (h.1 (env n c)))

pub Ensures-result :
    {A : Type 0} (P : Call → Type 0) (Q : A → Type 0) (env : Environment) (n : ℕ) (m : Program A)
    → Ensures P Q m
    → Q (result env n m)
Ensures-result P Q env n (ret a) h = h
Ensures-result P Q env n (call c k) h = Ensures-result P Q env (suc n) (k (env n c)) (h.1 (env n c))

-- The calls of a bind: those of the first program, then those of the second from some number on.
pub All-bind :
    {A B : Type 0} (P : Call → Type 0) (Q : A → Type 0) (env : Environment) (n : ℕ) (m : Program A)
    (f : A → Program B)
    → Ensures P Q m
    → ((k : ℕ) → All P (calls env k (f (result env n m))))
    → All P (calls env n (m >>= f))
All-bind P Q env n (ret a) f h g = g n
All-bind P Q env n (call c k) f h g =
    (h.0, All-bind P Q env (suc n) (k (env n c)) f (h.1 (env n c)) g)
