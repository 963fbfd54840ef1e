-- ===== src/Tests/Annotating.antt =====
-- Examples of the Grafana annotations, against a server that keeps a list.
use devops_demo.Base.{
  ℕ, String, ◌≡◌, refl, ap, sym, ◌∙◌, map, Option, none, some, true, List, [], ◌∷◌, ℤ, pos, ◌*◌,
  ◌+◌, text_eq, text_key, elem, length, if◌then◌else◌, arith,
}
use mathlib.Core.List.{Perm}
use mathlib.Core.List.Perm
use devops_demo.Base.Parse.{digits, unsigned, positive_int, parse_int}
use devops_demo.Base.Decimal.{append_text, digit_char, print_before, print_nat, print_int}
use devops_demo.Grafana.{
  anomaly_tag, ApiAnnotation, Response, answered, Api, accepted, decoded, list_by_tag,
  delete_annotation, create, unless_rejected, create_all, delete_all, after_list,
  replace_anomaly_annotations, compute_annotations,
}
use devops_demo.Grafana.Settings.{Config}
use devops_demo.Grafana.Replaced.{without, annotations_of}
use devops_demo.Grafana.Requests.{
  HttpRequest, Payload, annotations, other_text, fits, decode, map_body, do_request, get_by_tag,
  delete_by_id, post, http_api,
}
use devops_demo.Grafana.Requests.Served.{annotation_for, IsGrafana, http_api-replaces}
use devops_demo.Server.Routes.{after_prefix}

-- A Grafana that lists the newest annotation first.
abbrev delete_reply : Option ℤ → List ApiAnnotation → Response Payload × List ApiAnnotation
delete_reply none s = (answered 404 other_text, s)
delete_reply (some id) s = (answered 200 other_text, without id s)

abbrev id_of : Option String → Option ℤ
id_of none = none
id_of (some text) = parse_int text

abbrev post_reply :
    Option ApiAnnotation → List ApiAnnotation → Response Payload × List ApiAnnotation
post_reply none s = (answered 400 other_text, s)
post_reply (some a) s = (
  answered 200 other_text,
  if elem anomaly_tag a.annotation.tags then record a { id = pos (length s) } ∷ s else s,
)

abbrev config : Config
config = record { url = "http://grafana:3000"; user = "admin"; password = "admin" }

unfoldable serve : HttpRequest → List ApiAnnotation → Response Payload × List ApiAnnotation
unfolding after_prefix
serve r s =
    if text_eq r.method "GET"
    then (answered 200 (annotations s), s)
    else if text_eq r.method "DELETE"
    then delete_reply (id_of (after_prefix "http://grafana:3000/api/annotations/" r.url)) s
    else post_reply r.payload s

serve-delete :
    (r : HttpRequest) (text : String) (id : ℤ) (s : List ApiAnnotation)
    → r.method ≡ "DELETE"
    → r.url ≡ append_text config.url (append_text "/api/annotations/" text)
    → parse_int text ≡ some id
    → serve r s ≡ (answered 200 other_text, without id s)
unfolding serve append_text
serve-delete r text id s m u p = rw (m, u, p) refl

serve-post :
    (r : HttpRequest) (x : ApiAnnotation) (s : List ApiAnnotation)
    → r.method ≡ "POST"
    → r.payload ≡ some x
    → elem anomaly_tag x.annotation.tags ≡ true
    → serve r s ≡ (answered 200 other_text, record x { id = pos (length s) } ∷ s)
unfolding serve
serve-post r x s m p t = rw (m, p, t) refl

serve-list :
    (r : HttpRequest) (s : List ApiAnnotation)
    → r.method ≡ "GET"
    → serve r s ≡ (answered 200 (annotations s), s)
unfolding serve
serve-list r s m = rw m refl

-- An answer tells the state after it.
after_answer :
    {p q : Response Payload} {s t : List ApiAnnotation} {x : Response Payload × List ApiAnnotation}
    → x ≡ (p, s)
    → x ≡ (q, t)
    → t ≡ s
after_answer h k = ap (λ y. y.1) (sym k ∙ h)

perm_of_eq : {A : Type 0} {xs ys : List A} → xs ≡ ys → Perm xs ys
perm_of_eq e = rw e Perm.rfl

serve-IsGrafana : IsGrafana config.url serve (λ s. s)
serve-IsGrafana = record {
  lists = λ r s s' xs m u h few. (
    perm_of_eq (ground (arith, serve-list r s m, h)),
    perm_of_eq (after_answer (serve-list r s m) h),
  );
  deletes =
      λ r text id s s' q m u p h. perm_of_eq (after_answer (serve-delete r text id s m u p) h);
  posts = λ r x s s' q m u c p t h.
      perm_of_eq (ap annotations_of (after_answer (serve-post r x s m p t) h));
}

abbrev api : Api (List ApiAnnotation)
api = http_api (λ url. true) config serve

-- An anomaly is the number of its day.
abbrev day_window : ℕ → ℤ × ℤ
day_window n = (pos (n * 86_400_000), pos (n * 86_400_000 + 3_600_000))

abbrev stale : List ApiAnnotation
stale =
    record {
      id = pos 4;
      annotation = record {
        time_unix_milli = pos 1;
        time_end_unix_milli = pos 2;
        tags = anomaly_tag ∷ [];
        text = "old";
      };
    }
    ∷ []

replaced_without_error :
    (replace_anomaly_annotations api
      (compute_annotations day_window (λ n. "spike") (λ n. "launch") (3 ∷ 9 ∷ []))
      stale).0
    ≡ none
unfolding replace_anomaly_annotations list_by_tag after_list delete_all create_all delete_annotation
    create unless_rejected accepted decoded compute_annotations http_api get_by_tag delete_by_id
    post do_request decode fits map_body serve append_text print_int print_nat print_before
    digit_char parse_int unsigned digits positive_int
replaced_without_error = refl

http_api-replaces_example :
    Perm
      (annotations_of
        (replace_anomaly_annotations api
          (compute_annotations day_window (λ n. "spike") (λ n. "launch") (3 ∷ 9 ∷ []))
          stale).1)
      (map (annotation_for day_window (λ n. "spike") (λ n. "launch")) (3 ∷ 9 ∷ []))
http_api-replaces_example =
    http_api-replaces (λ url. true) config serve (λ s. s) serve-IsGrafana day_window (λ n. "spike")
      (λ n. "launch") (3 ∷ 9 ∷ []) stale (omega arith) replaced_without_error
