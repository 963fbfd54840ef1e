-- ===== src/Logging.antt =====
-- internal/logging/logging.go, over the JSON handler of log/slog. Of a log line the attributes are
-- kept, each with the groups that it stands in; their values are texts. Time, level and message are
-- left out.
pub mod Traced
use devops_demo.Base.{String, Bool, List, [], ◌∷◌, ◌++◌, text_eq, if◌then◌else◌}

pub record Attr : Type 0 where
  pub groups : List String
  pub key : String
  pub value : String

-- slog.JSONHandler: the open groups, the outermost first, and the attributes of With.
pub record JsonHandler : Type 0 where
  pub open_groups : List String
  pub attrs : List Attr

unfoldable pub placed : List String → List (String × String) → List Attr
placed groups [] = []
placed groups ((key, value) ∷ attrs) =
    record { groups = groups; key = key; value = value } ∷ placed groups attrs

unfoldable pub json_with_attrs : List (String × String) → JsonHandler → JsonHandler
unfolding placed
json_with_attrs attrs h = record h { attrs = h.attrs ++ placed h.open_groups attrs }

-- A group without a name is none.
unfoldable pub json_with_group : String → JsonHandler → JsonHandler
json_with_group name h =
    if text_eq name "" then h else record h { open_groups = h.open_groups ++ name ∷ [] }

-- The attributes of the line that is written for a record with these.
unfoldable pub json_handle : List (String × String) → JsonHandler → List Attr
unfolding placed
json_handle attrs h = h.attrs ++ placed h.open_groups attrs

-- zeroTraceID
abbrev pub zero_trace_id : String
zero_trace_id = "00000000000000000000000000000000"

-- What the handler reads of a trace.SpanContext.
pub record SpanContext : Type 0 where
  pub is_valid : Bool
  pub trace_id : String

pub record Handler : Type 0 where
  pub inner : JsonHandler

-- New
abbrev pub new : Handler
new = record { inner = record { open_groups = []; attrs = [] } }

unfoldable pub trace_id_of : SpanContext → String
trace_id_of span = if span.is_valid then span.trace_id else zero_trace_id

-- Handle, WithAttrs and WithGroup
unfoldable pub handle : SpanContext → List (String × String) → Handler → List Attr
unfolding json_handle trace_id_of
handle span attrs h = json_handle (attrs ++ ("trace_id", trace_id_of span) ∷ []) h.inner

unfoldable pub with_attrs : List (String × String) → Handler → Handler
unfolding json_with_attrs
with_attrs attrs h = record { inner = json_with_attrs attrs h.inner }

unfoldable pub with_group : String → Handler → Handler
unfolding json_with_group
with_group name h = record { inner = json_with_group name h.inner }
