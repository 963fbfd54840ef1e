-- ===== src/Tests/Tracing.antt =====
-- Examples of the trace context in gRPC metadata, kept as a list of keys and values.
use devops_demo.Base.{
  ℕ, ◌≡◌, refl, String, some, List, [], ◌∷◌, ◌++◌, true, text_eq, map, if◌then◌else◌,
}
use devops_demo.Ingest.Trace.{Metadata, Heap, Context, intercept}
use devops_demo.Ingest.Trace.Injected.{IsMetadata, Carries, intercept-Carries}
use devops_demo.Logging.{
  SpanContext, placed, json_with_attrs, json_with_group, json_handle, new, handle,
}
use devops_demo.Logging.Traced.{
  IsTraceId, adds, groups, Derivation, derive, json_derive, handle-derive,
}

-- The newest value of a key stands first.
abbrev values_of : String → List (String × String) → List String
values_of key [] = []
values_of key ((k, value) ∷ m) = if text_eq k key then value ∷ [] else values_of key m

abbrev listed_metadata : Metadata (List (String × String))
listed_metadata = record {
  get = values_of;
  set = λ key value m. (key, value) ∷ m;
  empty = [];
  keys = map (λ r. r.0);
}

listed-IsMetadata : IsMetadata listed_metadata text_eq
listed-IsMetadata = record { get-set = λ key value other m. refl; get-empty = λ key. refl }

-- The caller's metadata is at address 0.
abbrev heap : Heap (List (String × String))
heap = record { cell = λ a. ("authorization", "token") ∷ []; next = 1 }

abbrev span : Context String
span = record { span = "00-abc-01"; outgoing = some 0 }

abbrev call : Context String → Heap (List (String × String)) → Context String × ℕ
call ctx h = (ctx, h.next)

abbrev headers : String → List (String × String)
headers id = ("traceparent", id) ∷ []

intercept-Carries_example :
    (ctx₁ : Context String) × (h₁ : Heap (List (String × String))) × (intercept listed_metadata
        headers call span heap
      ≡ call ctx₁ h₁)
    × Carries listed_metadata headers text_eq span ctx₁ heap h₁
intercept-Carries_example =
    intercept-Carries listed_metadata headers text_eq call span heap listed-IsMetadata

-- A logger with an attribute and, in a group, another.
abbrev derivations : List Derivation
derivations =
    adds (("service", "analytics") ∷ []) ∷ groups "store" ∷ adds (("op", "ingest") ∷ []) ∷ []

abbrev sampled : SpanContext
sampled = record { is_valid = true; trace_id = "4bf92f3577b34da6a3ce929d0e0e4736" }

handle-derive_example :
    (id : String) × IsTraceId sampled id
    × (handle sampled (("items", "2") ∷ []) (derive derivations new)
        ≡ json_handle (("items", "2") ∷ []) (json_derive derivations new.inner)
          ++ record {
            groups = (json_derive derivations new.inner).open_groups;
            key = "trace_id";
            value = id;
          }
            ∷ [])
handle-derive_example = handle-derive derivations sampled (("items", "2") ∷ [])

traced_group : (json_derive derivations new.inner).open_groups ≡ "store" ∷ []
unfolding json_with_attrs json_with_group placed
traced_group = refl
