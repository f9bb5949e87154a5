-- ===== src/Cluster/Versions.antt =====
-- The versions of one binding as a path of the diagram.
use fluent_pvc_operator.Lifecycle.Histories.{flags-created}
use fluent_pvc_operator.Lifecycle.Flags.{Flags, flags}
use fluent_pvc_operator.Lifecycle.Steps.{
  IsOrdered, Step-IsOrdered, Step, IsOrdered-no_flags, becomes_unknown, becomes_ready, misses_pod,
  goes_out_of_use, loses_job, sees_job,
}
use fluent_pvc_operator.Cluster.Duties.{Onward}
use mathlib.Core.List.{Memᴰ}
use fluent_pvc_operator.Prelude.{true, ◌≡◌, inl, inr, List, [], ◌∷◌, arith}
use fluent_pvc_operator.Kube.{Library, LibraryLaws}
use fluent_pvc_operator.Api.{FluentPvcBinding}

module _ (l : Library) where
  -- The oldest version has no condition, and every later one is onward of the one before.
  abbrev pub Comes : FluentPvcBinding → List FluentPvcBinding → Type 0
  Comes c [] = c.status.conditions ≡ []
  Comes c (b ∷ bs) = Onward l b c

  abbrev pub IsPath : List FluentPvcBinding → Type 0
  IsPath [] = Unit
  IsPath (b ∷ bs) = Comes b bs × IsPath bs

  pub Onward-IsOrdered :
      (b c : FluentPvcBinding) → Onward l b c → IsOrdered (flags l b) → IsOrdered (flags l c)
  Onward-IsOrdered b c (inl s) h = Step-IsOrdered s h
  Onward-IsOrdered b c (inr e) h = rw e h

  head-IsOrdered :
      LibraryLaws l
      → (b : FluentPvcBinding) (bs : List FluentPvcBinding) → IsPath (b ∷ bs)
      → IsOrdered (flags l b)
  head-IsOrdered laws b [] h = rw (flags-created l laws b h.0) IsOrdered-no_flags
  head-IsOrdered laws b (c ∷ bs) h = Onward-IsOrdered c b h.0 (head-IsOrdered laws c bs h.1)

  pub IsPath-IsOrdered :
      LibraryLaws l
      → (bs : List FluentPvcBinding) → IsPath bs
      → (b : FluentPvcBinding) → Memᴰ b bs
      → IsOrdered (flags l b)
  IsPath-IsOrdered laws [] h b m = elim m [ ]
  IsPath-IsOrdered laws (x ∷ bs) h b (Memᴰ.head e) = rw e (head-IsOrdered laws x bs h)
  IsPath-IsOrdered laws (x ∷ bs) h b (Memᴰ.tail m) = IsPath-IsOrdered laws bs h.1 b m

-- The flags that nothing takes back.
pub record Lasts (f g : Flags) : Type 0 where
  pub ready : f.ready ≡ true → g.ready ≡ true
  pub out_of_use : f.out_of_use ≡ true → g.out_of_use ≡ true
  pub succeeded : f.finalizer_job_succeeded ≡ true → g.finalizer_job_succeeded ≡ true
  pub unknown : f.unknown ≡ true → g.unknown ≡ true
  pub pod_missing : f.pod_missing ≡ true → g.pod_missing ≡ true

Lasts-refl : (f : Flags) → Lasts f f
Lasts-refl f = record {
  ready = λ h. h;
  out_of_use = λ h. h;
  succeeded = λ h. h;
  unknown = λ h. h;
  pod_missing = λ h. h;
}

Lasts-trans : {f g h : Flags} → Lasts f g → Lasts g h → Lasts f h
Lasts-trans p q = record {
  ready = λ e. q.ready (p.ready e);
  out_of_use = λ e. q.out_of_use (p.out_of_use e);
  succeeded = λ e. q.succeeded (p.succeeded e);
  unknown = λ e. q.unknown (p.unknown e);
  pod_missing = λ e. q.pod_missing (p.pod_missing e);
}

Step-Lasts : {f g : Flags} → Step f g → Lasts f g
Step-Lasts (becomes_unknown k e) = ground arith
Step-Lasts (becomes_ready o r e) = ground arith
Step-Lasts (misses_pod o r e) = ground arith
Step-Lasts (goes_out_of_use o r u e) = ground arith
Step-Lasts (loses_job o e) = ground arith
Step-Lasts (sees_job s d x o e) = ground arith

module _ (l : Library) where
  Onward-Lasts : (b c : FluentPvcBinding) → Onward l b c → Lasts (flags l b) (flags l c)
  Onward-Lasts b c (inl s) = Step-Lasts s
  Onward-Lasts b c (inr e) = rw e (Lasts-refl (flags l b))

  -- From any version of a path to its newest.
  pub IsPath-Lasts :
      (b c : FluentPvcBinding) (bs : List FluentPvcBinding)
      → IsPath l (c ∷ bs)
      → Memᴰ b (c ∷ bs)
      → Lasts (flags l b) (flags l c)
  IsPath-Lasts b c bs h (Memᴰ.head e) = rw e (Lasts-refl (flags l c))
  IsPath-Lasts b c [] h (Memᴰ.tail m) = elim m [ ]
  IsPath-Lasts b c (d ∷ bs) h (Memᴰ.tail m) =
      Lasts-trans (IsPath-Lasts b d bs h.1 m) (Onward-Lasts d c h.0)
