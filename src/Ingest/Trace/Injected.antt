-- ===== src/Ingest/Trace/Injected.antt =====
-- What a call sees of the trace context, and that the caller's metadata stays as it is.
use devops_demo.Base.{
  ℕ, ◌<◌, ◌≡◌, refl, ap, ◌∙◌, String, Bool, false, Option, none, some, List, [], ◌∷◌, nat_eq,
  if◌then◌else◌, arith,
}
use devops_demo.Ingest.Trace.{
  Metadata, Heap, Context, write, allocate, carrier_set, inject, copy_or_new, inject_trace_context,
  intercept,
}

-- What the code relies on: keys are compared without their case by `same`, Set replaces the values
-- of a key, and an empty MD has none.
pub record IsMetadata {M : Type 0} (md : Metadata M) (same : String → String → Bool) : Type 0 where
  pub get-set :
      (key value other : String) (m : M)
      → md.get other (md.set key value m) ≡ (if same key other then value ∷ [] else md.get other m)
  pub get-empty : (key : String) → md.get key md.empty ≡ []

-- The values of a key after the headers are set: the last header with the key counts.
pub set_values :
    (String → String → Bool) → List (String × String) → String → List String → List String
set_values same [] other values = values
set_values same ((key, value) ∷ headers) other values =
    set_values same headers other (if same key other then value ∷ [] else values)

module _ {M : Type 0} (md : Metadata M) where
  inject-other :
      (headers : List (String × String)) (address a : ℕ) (h : Heap M)
      → nat_eq a address ≡ false
      → (inject md headers address h).cell a ≡ h.cell a
  unfolding inject carrier_set write
  inject-other [] address a h n = refl
  inject-other ((key, value) ∷ headers) address a h n =
      inject-other headers address a _ n ∙ ground arith

  inject-get :
      (same : String → String → Bool)
      → IsMetadata md same
      → (headers : List (String × String)) (address : ℕ) (key : String) (h : Heap M)
      → md.get key ((inject md headers address h).cell address)
        ≡ set_values same headers key (md.get key (h.cell address))
  unfolding inject carrier_set write set_values
  inject-get same laws [] address key h = refl
  inject-get same laws ((k, value) ∷ headers) address key h =
      inject-get same laws headers address key _
      ∙ ap (set_values same headers key) (ground (arith, laws.get-set k value key (h.cell address)))

  -- The values that the context's metadata has for a key, none without metadata.
  abbrev pub values_before : Option ℕ → String → Heap M → List String
  values_before none key h = []
  values_before (some address) key h = md.get key (h.cell address)

  module _ {C : Type 0} (propagator : C → List (String × String)) where
    -- A call through an interceptor.
    pub record Carries (same : String → String → Bool) (ctx ctx₁ : Context C) (h h₁ : Heap M)
        : Type 0 where
      pub address : ℕ
      pub attached : ctx₁.outgoing ≡ some address
      pub span : ctx₁.span ≡ ctx.span
      pub values :
          (key : String)
          → md.get key (h₁.cell address)
            ≡ set_values same (propagator ctx.span) key (values_before ctx.outgoing key h)
      pub kept : (a : ℕ) → a < h.next → h₁.cell a ≡ h.cell a

    copied :
        (same : String → String → Bool)
        → IsMetadata md same
        → (o : Option ℕ) (h : Heap M)
        → let (address, h₁) = copy_or_new md o h in
          (address ≡ h.next)
          × ((key : String) → md.get key (h₁.cell address) ≡ values_before o key h)
          × ((a : ℕ) → a < h.next → h₁.cell a ≡ h.cell a)
    unfolding copy_or_new allocate write
    copied same laws none h =
        (refl, (λ key. ground (arith, laws.get-empty key)), λ a l. ground arith)
    copied same laws (some address) h = (refl, (λ key. ground arith), λ a l. ground arith)

    inject_trace_context-Carries :
        (same : String → String → Bool)
        → IsMetadata md same
        → (ctx : Context C) (h : Heap M)
        → let (ctx₁, h₁) = inject_trace_context md propagator ctx h in Carries same ctx ctx₁ h h₁
    unfolding inject_trace_context
    inject_trace_context-Carries same laws ctx h =
        let (at, values, kept) = copied same laws ctx.outgoing h in
        let (address, h₁) = copy_or_new md ctx.outgoing h in
        record {
          address = address;
          attached = refl;
          span = refl;
          values = λ key.
              inject-get same laws (propagator ctx.span) address key h₁
              ∙ ap (set_values same (propagator ctx.span) key) (values key);
          kept = λ a l.
              inject-other (propagator ctx.span) address a h₁ (ground (arith, at)) ∙ kept a l;
        }

    -- An RPC through one of the interceptors is made once, with a context that has the caller's span
    -- and metadata of its own, in which each key has the last value that the propagator set for it,
    -- or else the values that the caller's metadata has; and all metadata that the caller can reach
    -- stays as it is.
    pub intercept-Carries :
        (same : String → String → Bool) {A : Type 0} (call : Context C → Heap M → A)
        (ctx : Context C) (h : Heap M)
        → IsMetadata md same
        → (ctx₁ : Context C) × (h₁ : Heap M) × (intercept md propagator call ctx h ≡ call ctx₁ h₁)
          × Carries same ctx ctx₁ h h₁
    unfolding intercept
    intercept-Carries same call ctx h laws =
        let (ctx₁, h₁) = inject_trace_context md propagator ctx h in
        (ctx₁, h₁, refl, inject_trace_context-Carries same laws ctx h)
