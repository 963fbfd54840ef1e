-- ===== src/Grafana.antt =====
-- internal/grafana: ComputeAnnotations of annotations.go and ReplaceAnomalyAnnotations of client.go.
-- The three requests that are sent are the record `Api`, which Requests implements.
pub mod Replaced
pub mod Settings
pub mod Requests
use devops_demo.Base.{
  ℕ, String, Bool, true, false, Option, none, some, List, [], ◌∷◌, map, ℤ, nat_eq, ◌⊎◌, inl, inr,
  if◌then◌else◌,
}

-- AnomalyTag
abbrev pub anomaly_tag : String
anomaly_tag = "seed-anomaly"

pub record Annotation : Type 0 where
  pub time_unix_milli : ℤ
  pub time_end_unix_milli : ℤ
  pub tags : List String
  pub text : String

-- apiAnnotation: an annotation as Grafana lists it.
pub record ApiAnnotation : Type 0 where
  pub id : ℤ
  pub annotation : Annotation

-- What http.Client.Do gives: no response, or a status and the decoded body.
pub data Response (A : Type 0) : Type 0 where
  failed : Response A
  answered : ℕ → A → Response A

-- GET by tag (limit 1000; `none` is a body that does not decode), DELETE by id, and POST.
pub record Api (S : Type 0) : Type 0 where
  pub get_by_tag : String → S → Response (Option (List ApiAnnotation)) × S
  pub delete_by_id : ℤ → S → Response (Unit {0}) × S
  pub post : Annotation → S → Response (Unit {0}) × S

pub data RequestError : Type 0 where
  no_response : RequestError
  unexpected_status : ℕ → RequestError
  undecodable : RequestError

-- The errors of ReplaceAnomalyAnnotations.
pub data Failure : Type 0 where
  list_existing : RequestError → Failure
  delete_stale : ℤ → RequestError → Failure
  create_annotation : String → RequestError → Failure

-- The body of a response with the status 200.
unfoldable pub accepted : {A : Type 0} → Response A → (RequestError ⊎ A)
accepted failed = inl no_response
accepted (answered status body) =
    if nat_eq status 200 then inr body else inl (unexpected_status status)

unfoldable pub decoded :
    RequestError ⊎ Option (List ApiAnnotation) → RequestError ⊎ List ApiAnnotation
decoded (inl e) = inl e
decoded (inr none) = inl undecodable
decoded (inr (some existing)) = inr existing

module _ {S : Type 0} (api : Api S) where
  -- listByTag
  unfoldable pub list_by_tag : String → S → (RequestError ⊎ List ApiAnnotation) × S
  unfolding accepted decoded
  list_by_tag tag s = let (r, s') = api.get_by_tag tag s in (decoded (accepted r), s')

  -- Client.delete and Client.create
  unfoldable pub delete_annotation : ℤ → S → (RequestError ⊎ Unit {0}) × S
  unfolding accepted
  delete_annotation id s = let (r, s') = api.delete_by_id id s in (accepted r, s')

  unfoldable pub create : Annotation → S → (RequestError ⊎ Unit {0}) × S
  unfolding accepted
  create a s = let (r, s') = api.post a s in (accepted r, s')

  -- A return from inside a loop, or its next round.
  unfoldable pub unless_rejected :
      (RequestError → Failure)
      → (S → Option Failure × S)
      → (RequestError ⊎ Unit {0}) × S
      → Option Failure × S
  unless_rejected failure next (inl e, s) = (some (failure e), s)
  unless_rejected failure next (inr u, s) = next s

  unfoldable pub create_all : List Annotation → S → Option Failure × S
  unfolding create unless_rejected
  create_all [] s = (none, s)
  create_all (a ∷ anns) s =
      unless_rejected (create_annotation a.text) (create_all anns) (create a s)

  unfoldable pub delete_all : List ApiAnnotation → (S → Option Failure × S) → S → Option Failure × S
  unfolding delete_annotation unless_rejected
  delete_all [] next s = next s
  delete_all (a ∷ existing) next s =
      unless_rejected (delete_stale a.id) (delete_all existing next) (delete_annotation a.id s)

  unfoldable pub after_list :
      List Annotation → (RequestError ⊎ List ApiAnnotation) × S → Option Failure × S
  unfolding delete_all create_all
  after_list anns (inl e, s) = (some (list_existing e), s)
  after_list anns (inr existing, s) = delete_all existing (create_all anns) s

  unfoldable pub replace_anomaly_annotations : List Annotation → S → Option Failure × S
  unfolding list_by_tag after_list
  replace_anomaly_annotations anns s = after_list anns (list_by_tag anomaly_tag s)

-- ComputeAnnotations: the window in milliseconds (loadshape.AnomalyRealWindow) and the text are
-- floating-point computations, and so parameters; N is the type of an anomaly.
unfoldable pub compute_annotations :
    {N : Type 0} → (N → ℤ × ℤ) → (N → String) → (N → String) → List N → List Annotation
compute_annotations window type_of text_of [] = []
compute_annotations window type_of text_of (a ∷ anomalies) =
    record {
      time_unix_milli = (window a).0;
      time_end_unix_milli = (window a).1;
      tags = anomaly_tag ∷ type_of a ∷ [];
      text = text_of a;
    }
    ∷ compute_annotations window type_of text_of anomalies
