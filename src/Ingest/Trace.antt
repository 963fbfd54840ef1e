-- ===== src/Ingest/Trace.antt =====
-- internal/ingest/trace.go: the carrier of the trace context and the interceptors. The metadata of
-- gRPC and the propagator of OpenTelemetry are not part of the repository: Metadata is what the code
-- uses of metadata.MD, and an injection is the list of headers that the propagator sets.
pub mod Injected
use devops_demo.Base.{ℕ, ◌+◌, String, Option, none, some, List, [], ◌∷◌, nat_eq, if◌then◌else◌}

-- MD.Get, MD.Set of one value, the empty metadata, and the keys of the map.
pub record Metadata (M : Type 0) : Type 0 where
  pub get : String → M → List String
  pub set : String → String → M → M
  pub empty : M
  pub keys : M → List String

-- An MD is a Go map, and so a reference: `cell` is what is at an address, and the addresses from
-- `next` on are free.
pub record Heap (M : Type 0) : Type 0 where
  pub cell : ℕ → M
  pub next : ℕ

-- A context has a span and perhaps the outgoing metadata.
pub record Context (C : Type 0) : Type 0 where
  pub span : C
  pub outgoing : Option ℕ

unfoldable pub first_or_empty : List String → String
first_or_empty [] = ""
first_or_empty (value ∷ values) = value

unfoldable pub write : {M : Type 0} → ℕ → M → Heap M → Heap M
write address m h = record h { cell = λ a. if nat_eq a address then m else h.cell a }

unfoldable pub allocate : {M : Type 0} → M → Heap M → ℕ × Heap M
unfolding write
allocate m h = (h.next, record (write h.next m h) { next = h.next + 1 })

module _ {M : Type 0} (md : Metadata M) where
  -- metadataCarrier, which points to an MD.
  unfoldable pub carrier_get : ℕ → String → Heap M → String
  unfolding first_or_empty
  carrier_get address key h = first_or_empty (md.get key (h.cell address))

  unfoldable pub carrier_set : ℕ → String → String → Heap M → Heap M
  unfolding write
  carrier_set address key value h = write address (md.set key value (h.cell address)) h

  unfoldable pub carrier_keys : ℕ → Heap M → List String
  carrier_keys address h = md.keys (h.cell address)

  -- Inject, which sets the headers one after the other.
  unfoldable pub inject : List (String × String) → ℕ → Heap M → Heap M
  unfolding carrier_set
  inject [] address h = h
  inject ((key, value) ∷ headers) address h =
      inject headers address (carrier_set address key value h)

  -- md.Copy(), or an empty MD where the context has none.
  unfoldable pub copy_or_new : Option ℕ → Heap M → ℕ × Heap M
  unfolding allocate
  copy_or_new none h = allocate md.empty h
  copy_or_new (some address) h = allocate (h.cell address) h

  module _ {C : Type 0} (propagator : C → List (String × String)) where
    unfoldable pub inject_trace_context : Context C → Heap M → Context C × Heap M
    unfolding copy_or_new inject
    inject_trace_context ctx h =
        let (address, h₁) = copy_or_new ctx.outgoing h in
        (record ctx { outgoing = some address }, inject (propagator ctx.span) address h₁)

    -- traceUnaryClientInterceptor and traceStreamClientInterceptor: `call` is the invoker or the
    -- streamer with its other arguments.
    unfoldable pub intercept : {A : Type 0} → (Context C → Heap M → A) → Context C → Heap M → A
    unfolding inject_trace_context
    intercept call ctx h = let (ctx₁, h₁) = inject_trace_context ctx h in call ctx₁ h₁
