-- ===== src/Logging/Traced.antt =====
-- The trace id on the lines of a logger and of those derived from it.
use devops_demo.Base.{String, ◌≡◌, refl, ap, sym, ◌∙◌, List, [], ◌∷◌, ◌++◌, ◌⊎◌, true, false, arith}
use mathlib.Core.List.{append_assoc}
use devops_demo.Logging.{
  JsonHandler, Handler, SpanContext, placed, json_with_attrs, json_with_group, json_handle, new,
  trace_id_of, handle, with_attrs, with_group,
}

-- A call of With or WithGroup.
pub data Derivation : Type 0 where
  adds : List (String × String) → Derivation
  groups : String → Derivation

-- The handler of a logger after these calls, and the JSON handler alone after the same.
abbrev pub derive : List Derivation → Handler → Handler
derive [] h = h
derive (adds attrs ∷ ds) h = derive ds (with_attrs attrs h)
derive (groups name ∷ ds) h = derive ds (with_group name h)

abbrev pub json_derive : List Derivation → JsonHandler → JsonHandler
json_derive [] h = h
json_derive (adds attrs ∷ ds) h = json_derive ds (json_with_attrs attrs h)
json_derive (groups name ∷ ds) h = json_derive ds (json_with_group name h)

inner-derive : (ds : List Derivation) (h : Handler) → (derive ds h).inner ≡ json_derive ds h.inner
unfolding with_attrs with_group
inner-derive [] h = refl
inner-derive (adds attrs ∷ ds) h = inner-derive ds (with_attrs attrs h)
inner-derive (groups name ∷ ds) h = inner-derive ds (with_group name h)

placed-append :
    (gs : List String) (xs ys : List (String × String))
    → placed gs (xs ++ ys) ≡ placed gs xs ++ placed gs ys
unfolding placed
placed-append gs [] ys = refl
placed-append gs ((key, value) ∷ xs) ys =
    ap (◌∷◌ (record { groups = gs; key = key; value = value })) (placed-append gs xs ys)

-- The id that belongs on a line: that of the trace of a valid span, or else 32 zeros.
abbrev pub IsTraceId : SpanContext → String → Type 0
IsTraceId span id =
    ((span.is_valid ≡ true) × (id ≡ span.trace_id))
    ⊎ ((span.is_valid ≡ false) × (id ≡ "00000000000000000000000000000000"))

trace_id_of-IsTraceId : (span : SpanContext) → IsTraceId span (trace_id_of span)
unfolding trace_id_of
trace_id_of-IsTraceId span = ground arith

-- Whatever calls of With and WithGroup a logger was derived by, it writes for every record the line
-- that the JSON handler writes after the same calls, and at its end, in the innermost open group,
-- one attribute trace_id: the id of the trace if the span is valid, and else 32 zeros.
pub handle-derive :
    (ds : List Derivation) (span : SpanContext) (attrs : List (String × String))
    → let plain = json_derive ds new.inner in
      (id : String) × IsTraceId span id
      × (handle span attrs (derive ds new)
          ≡ json_handle attrs plain
            ++ record { groups = plain.open_groups; key = "trace_id"; value = id } ∷ [])
unfolding handle json_handle
handle-derive ds span attrs =
    let plain = json_derive ds new.inner in
    let traced = ("trace_id", trace_id_of span) ∷ [] in
    (
      trace_id_of span,
      trace_id_of-IsTraceId span,
      ap (json_handle (attrs ++ traced)) (inner-derive ds new)
          ∙ ap (plain.attrs ++◌) (placed-append plain.open_groups attrs traced)
          ∙ sym (
              append_assoc plain.attrs (placed plain.open_groups attrs)
                (placed plain.open_groups traced)),
    )
