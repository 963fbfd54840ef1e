-- ===== src/Grafana/Requests/Served.antt =====
-- What is tagged as an anomaly after the annotations are replaced over HTTP.
use devops_demo.Base.{
  map, ◌≡◌, ◌≤◌, refl, ap, ◌∙◌, String, Bool, true, false, Option, none, some, List, [], ◌∷◌, ℕ, ℤ,
  pos, is_int64, text_key, elem, All, length, if◌then◌else◌, arith,
}
use mathlib.Core.List.{Perm}
use devops_demo.Base.Parse.{parse_int}
use devops_demo.Base.Decimal.{append_text, print_int}
use devops_demo.Base.Decimal.Read.{parse_int-print_int}
use devops_demo.Grafana.{
  anomaly_tag, ApiAnnotation, Annotation, Response, failed, answered, replace_anomaly_annotations,
  compute_annotations,
}
use devops_demo.Grafana.Settings.{Config}
use devops_demo.Grafana.Replaced.{
  without, annotations_of, IsAnnotationStore, replace_anomaly_annotations-compute_annotations,
}
use devops_demo.Grafana.Requests.{
  HttpRequest, Payload, annotations, other_text, fits, decode, map_body, do_request, get_by_tag,
  delete_by_id, post, http_api,
}

-- What Grafana's interface does with a request that it answers with 200, where `tagged` are the
-- annotations with the tag, in any order: a GET by the tag changes nothing and lists them, in any
-- order, unless they are more than the limit; a DELETE removes the one whose id, a decimal int64,
-- ends the path; a POST of JSON with the tag adds its annotation.
pub record IsGrafana {S : Type 0} (url : String) (send : HttpRequest → S → Response Payload × S)
    (tagged : S → List ApiAnnotation) : Type 0 where
  pub lists :
      (r : HttpRequest) (s s' : S) (xs : List ApiAnnotation)
      → r.method ≡ "GET"
      → r.url ≡ append_text url (append_text "/api/annotations?limit=1000&tags=" anomaly_tag)
      → send r s ≡ (answered 200 (annotations xs), s')
      → length (tagged s) ≤ 1000
      → Perm xs (tagged s) × Perm (tagged s') (tagged s)
  pub deletes :
      (r : HttpRequest) (text : String) (id : ℤ) (s s' : S) (p : Payload)
      → r.method ≡ "DELETE"
      → r.url ≡ append_text url (append_text "/api/annotations/" text)
      → parse_int text ≡ some id
      → send r s ≡ (answered 200 p, s')
      → Perm (tagged s') (without id (tagged s))
  pub posts :
      (r : HttpRequest) (x : ApiAnnotation) (s s' : S) (p : Payload)
      → r.method ≡ "POST"
      → r.url ≡ append_text url "/api/annotations"
      → r.content_type ≡ some "application/json"
      → r.payload ≡ some x
      → elem anomaly_tag x.annotation.tags ≡ true
      → send r s ≡ (answered 200 p, s')
      → Perm (annotations_of (tagged s')) (x.annotation ∷ annotations_of (tagged s))

map_body-answered :
    {A B : Type 0} (f : A → B) (r : Response A) (status : ℕ) (b : B)
    → map_body f r ≡ answered status b
    → (a : A) × (r ≡ answered status a) × (f a ≡ b)
unfolding map_body
map_body-answered f failed status b h = absurd (ground arith)
map_body-answered f (answered status' a) status b h = (a, ground arith, ground arith)

fits-All : (xs : List ApiAnnotation) → fits xs ≡ true → All (λ x. is_int64 x.id ≡ true) xs
unfolding fits
fits-All [] h = tt
fits-All (x ∷ xs) h = (ground arith, fits-All xs (ground arith))

decode-some :
    (p : Payload) (xs : List ApiAnnotation)
    → decode p ≡ some xs
    → (p ≡ annotations xs) × All (λ x. is_int64 x.id ≡ true) xs
unfolding decode
decode-some other_text xs h = absurd (ground arith)
decode-some (annotations ys) xs h = (ground arith, fits-All xs (ground arith))

sent_if_url :
    {S : Type 0} (b : Bool) (x : Response Payload × S) (s s' : S) (status : ℕ) (p : Payload)
    → (if b then x else (failed, s)) ≡ (answered status p, s')
    → x ≡ (answered status p, s')
sent_if_url true x s s' status p h = h
sent_if_url false x s s' status p h = absurd (ground arith)

-- The response that a mapped response comes from.
map_body-sent :
    {S A B : Type 0} (f : A → B) (x : Response A × S) (status : ℕ) (b : B) (s' : S)
    → ◌≡◌ {A = Response B × S} (map_body f x.0, x.1) (answered status b, s')
    → (a : A) × (x ≡ (answered status a, s')) × (f a ≡ b)
map_body-sent f (r, s) status b s' h =
    let (a, from, value) = map_body-answered f r status b (ap (λ y. y.0) h) in
    (a, ap (λ q. (q, s)) from ∙ ap (λ t. (answered status a, t)) (ap (λ y. y.1) h), value)

-- The annotation of an anomaly: its window, the tag with the type of the anomaly, and its text.
abbrev pub annotation_for :
    {N : Type 0} → (N → ℤ × ℤ) → (N → String) → (N → String) → N → Annotation
annotation_for window type_of text_of a = record {
  time_unix_milli = (window a).0;
  time_end_unix_milli = (window a).1;
  tags = "seed-anomaly" ∷ type_of a ∷ [];
  text = text_of a;
}

compute_annotations-map :
    {N : Type 0} (window : N → ℤ × ℤ) (type_of text_of : N → String) (anomalies : List N)
    → compute_annotations window type_of text_of anomalies
      ≡ map (annotation_for window type_of text_of) anomalies
unfolding compute_annotations
compute_annotations-map window type_of text_of [] = refl
compute_annotations-map window type_of text_of (a ∷ anomalies) =
    ap (◌∷◌ (annotation_for window type_of text_of a))
      (compute_annotations-map window type_of text_of anomalies)

module _ {S : Type 0} (is_url : String → Bool) (cfg : Config)
    (send : HttpRequest → S → Response Payload × S) where
  abbrev request_of : String → String → Option String → Option ApiAnnotation → HttpRequest
  request_of method path content_type payload = record {
    method = method;
    url = append_text cfg.url path;
    user = cfg.user;
    password = cfg.password;
    content_type = content_type;
    payload = payload;
  }

  do_request-answered :
      (method path : String) (content_type : Option String) (payload : Option ApiAnnotation)
      (s s' : S) (status : ℕ) (p : Payload)
      → do_request is_url cfg send method path content_type payload s ≡ (answered status p, s')
      → send (request_of method path content_type payload) s ≡ (answered status p, s')
  unfolding do_request
  do_request-answered method path content_type payload s s' status p h =
      sent_if_url (is_url (append_text cfg.url path))
        (send (request_of method path content_type payload) s) s s' status p h

  module _ (tagged : S → List ApiAnnotation) (grafana : IsGrafana cfg.url send tagged) where
    get_by_tag-lists :
        (s s' : S) (xs : List ApiAnnotation)
        → get_by_tag is_url cfg send anomaly_tag s ≡ (answered 200 (some xs), s')
        → length (tagged s) ≤ 1000
        → Perm xs (tagged s) × Perm (tagged s') (tagged s) × All (λ x. is_int64 x.id ≡ true) xs
    unfolding get_by_tag
    get_by_tag-lists s s' xs h few =
        let path = append_text "/api/annotations?limit=1000&tags=" anomaly_tag in
        let (p, from, value) =
          map_body-sent decode (do_request is_url cfg send "GET" path none none s) 200 (some xs) s'
            h in
        let (listed, int64s) = decode-some p xs value in
        let sent = do_request-answered "GET" path none none s s' 200 p from in
        let (same, kept) =
          grafana.lists (request_of "GET" path none none) s s' xs refl refl
            (sent ∙ ap (λ q. (answered 200 q, s')) listed) few in
        (same, kept, int64s)

    delete_by_id-deletes :
        (id : ℤ) (s s' : S) (u : Unit {0})
        → is_int64 id ≡ true
        → delete_by_id is_url cfg send id s ≡ (answered 200 u, s')
        → Perm (tagged s') (without id (tagged s))
    unfolding delete_by_id
    delete_by_id-deletes id s s' u i h =
        let path = append_text "/api/annotations/" (print_int id) in
        let (p, from, value) =
          map_body-sent (λ p. tt) (do_request is_url cfg send "DELETE" path none none s) 200 u s'
            h in
        grafana.deletes (request_of "DELETE" path none none) (print_int id) id s s' p refl refl
          (parse_int-print_int id (ground arith) (ground arith))
          (do_request-answered "DELETE" path none none s s' 200 p from)

    post-posts :
        (a : Annotation) (s s' : S) (u : Unit {0})
        → elem anomaly_tag a.tags ≡ true
        → post is_url cfg send a s ≡ (answered 200 u, s')
        → Perm (annotations_of (tagged s')) (a ∷ annotations_of (tagged s))
    unfolding post
    post-posts a s s' u t h =
        let x : ApiAnnotation = record { id = pos 0; annotation = a } in
        let json = some "application/json" in
        let (p, from, value) =
          map_body-sent (λ p. tt)
            (do_request is_url cfg send "POST" "/api/annotations" json (some x) s) 200 u s' h in
        grafana.posts (request_of "POST" "/api/annotations" json (some x)) x s s' p refl refl refl
          refl t (do_request-answered "POST" "/api/annotations" json (some x) s s' 200 p from)

    http_api-IsAnnotationStore : IsAnnotationStore (http_api is_url cfg send) tagged
    unfolding http_api
    http_api-IsAnnotationStore = record {
      lists = get_by_tag-lists;
      deletes = delete_by_id-deletes;
      posts = post-posts;
    }

    -- Over the HTTP requests of the client, where Grafana treats those it answers with 200 as
    -- IsGrafana says and at most 1000 annotations carry the tag: a ReplaceAnomalyAnnotations of the
    -- computed annotations that returns no error leaves exactly one annotation for each anomaly of
    -- the profile (its window in milliseconds, the tag and its type, its text) and no other with the
    -- tag: however many were there before, and so however often it is repeated.
    pub http_api-replaces :
        {N : Type 0} (window : N → ℤ × ℤ) (type_of text_of : N → String) (anomalies : List N)
        (s : S)
        → length (tagged s) ≤ 1000
        → (replace_anomaly_annotations
            (http_api is_url cfg send)
            (compute_annotations window type_of text_of anomalies)
            s).0
          ≡ none
        → Perm
            (annotations_of (
              tagged
                (replace_anomaly_annotations
                  (http_api is_url cfg send)
                  (compute_annotations window type_of text_of anomalies)
                  s).1))
            (map (annotation_for window type_of text_of) anomalies)
    http_api-replaces window type_of text_of anomalies s few h =
        rw (← compute_annotations-map window type_of text_of anomalies) (
          replace_anomaly_annotations-compute_annotations (http_api is_url cfg send) tagged window
            type_of text_of anomalies s http_api-IsAnnotationStore few h)
