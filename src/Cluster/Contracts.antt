-- ===== src/Cluster/Contracts.antt =====
-- What a program owes at each of its calls, by what it has learned from the answers before.
use fluent_pvc_operator.Effect.{Call, Answer, Program, ret, call, ◌>>=◌, Ensures}
use fluent_pvc_operator.Prelude.{Bool, true, false, ◌≡◌, refl, if◌then◌else◌}

pub record Contract : Type 1 where
  pub Knowledge : Type 0
  pub learn : Knowledge → (c : Call) → Answer c → Knowledge
  pub owed : Knowledge → Call → Type 0
  pub relied : (c : Call) → Answer c → Type 0

module _ (C : Contract) where
  -- Every call pays what it owes, and the result satisfies `Q`.
  abbrev pub Keeps : {A : Type 0} → C.Knowledge → (C.Knowledge → A → Type 0) → Program A → Type 0
  Keeps k Q (ret a) = Q k a
  Keeps k Q (call c m) =
      C.owed k c × ((r : Answer c) → C.relied c r → Keeps (C.learn k c r) Q (m r))

  pub Keeps-if :
      {A : Type 0} (k : C.Knowledge) (Q : C.Knowledge → A → Type 0) (t : Bool) (m n : Program A)
      → (t ≡ true → Keeps k Q m)
      → (t ≡ false → Keeps k Q n)
      → Keeps k Q (if t then m else n)
  Keeps-if k Q true m n h j = h refl
  Keeps-if k Q false m n h j = j refl

  pub Keeps-bind :
      {A B : Type 0} (k : C.Knowledge) (R : C.Knowledge → A → Type 0) (Q : C.Knowledge → B → Type 0)
      (m : Program A) (f : A → Program B)
      → Keeps k R m
      → ((now : C.Knowledge) (a : A) → R now a → Keeps now Q (f a))
      → Keeps k Q (m >>= f)
  Keeps-bind k R Q (ret a) f h j = j k a h
  Keeps-bind k R Q (call c m) f h j =
      (h.0, λ r p. Keeps-bind (C.learn k c r) R Q (m r) f (h.1 r p) j)

  -- A program whose calls pay at every knowledge that satisfies `I`, which no answer ends.
  pub Ensures-Keeps :
      {A : Type 0} (P : Call → Type 0) (I : C.Knowledge → Type 0) (m : Program A)
      → ((k : C.Knowledge) (c : Call) → I k → P c → C.owed k c)
      → ((k : C.Knowledge) (c : Call) (r : Answer c) → I k → I (C.learn k c r))
      → (k : C.Knowledge) → I k
      → Ensures P (λ _. Unit {0}) m
      → Keeps k (λ _ _. Unit) m
  Ensures-Keeps P I (ret a) pays keeps k i h = tt
  Ensures-Keeps P I (call c m) pays keeps k i h = (
    pays k c i h.0,
    λ r p. Ensures-Keeps P I (m r) pays keeps (C.learn k c r) (keeps k c r i) (h.1 r),
  )
