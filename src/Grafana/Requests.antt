-- ===== src/Grafana/Requests.antt =====
-- internal/grafana/client.go: the HTTP requests that listByTag, delete and create send. http.Client.Do
-- is a parameter, and so is the check of http.NewRequest that a text is a URL. A JSON body stands for
-- the value that it encodes.
pub mod Served
use devops_demo.Base.{
  String, Bool, true, false, ◌&&◌, Option, none, some, List, [], ◌∷◌, ℤ, pos, is_int64,
  if◌then◌else◌,
}
use devops_demo.Base.Decimal.{append_text, print_int}
use devops_demo.Grafana.{Annotation, ApiAnnotation, Response, failed, answered, Api}
use devops_demo.Grafana.Settings.{Config}

pub record HttpRequest : Type 0 where
  pub method : String
  pub url : String
  pub user : String
  pub password : String
  pub content_type : Option String
  pub payload : Option ApiAnnotation

-- The body of a response: a JSON list of annotations, whose numbers may be of any size, or any
-- other text.
pub data Payload : Type 0 where
  annotations : List ApiAnnotation → Payload
  other_text : Payload

-- json.Decoder.Decode refuses a number that does not fit into the int64 of its field.
unfoldable pub fits : List ApiAnnotation → Bool
fits [] = true
fits (a ∷ xs) =
    (is_int64 a.id
      && (is_int64 a.annotation.time_unix_milli && is_int64 a.annotation.time_end_unix_milli))
    && fits xs

unfoldable pub decode : Payload → Option (List ApiAnnotation)
unfolding fits
decode other_text = none
decode (annotations xs) = if fits xs then some xs else none

unfoldable pub map_body : {A B : Type 0} → (A → B) → Response A → Response B
map_body f failed = failed
map_body f (answered status body) = answered status (f body)

module _ {S : Type 0} (is_url : String → Bool) (cfg : Config)
    (send : HttpRequest → S → Response Payload × S) where
  -- http.NewRequestWithContext, SetBasicAuth and Do. Without a request nothing is sent.
  unfoldable pub do_request :
      String → String → Option String → Option ApiAnnotation → S → Response Payload × S
  do_request method path content_type payload s =
      let url = append_text cfg.url path in
      let request : HttpRequest = record {
        method = method;
        url = url;
        user = cfg.user;
        password = cfg.password;
        content_type = content_type;
        payload = payload;
      } in
      if is_url url then send request s else (failed, s)

  unfoldable pub get_by_tag : String → S → Response (Option (List ApiAnnotation)) × S
  unfolding do_request decode map_body
  get_by_tag tag s =
      let path = append_text "/api/annotations?limit=1000&tags=" tag in
      let (r, s') = do_request "GET" path none none s in (map_body decode r, s')

  unfoldable pub delete_by_id : ℤ → S → Response (Unit {0}) × S
  unfolding do_request map_body
  delete_by_id id s =
      let path = append_text "/api/annotations/" (print_int id) in
      let (r, s') = do_request "DELETE" path none none s in (map_body (λ p. tt) r, s')

  -- The id of a new annotation is 0.
  unfoldable pub post : Annotation → S → Response (Unit {0}) × S
  unfolding do_request map_body
  post a s =
      let payload : ApiAnnotation = record { id = pos 0; annotation = a } in
      let (r, s') =
        do_request "POST" "/api/annotations" (some "application/json") (some payload) s in
      (map_body (λ p. tt) r, s')

  unfoldable pub http_api : Api S
  unfolding get_by_tag delete_by_id post
  http_api = record { get_by_tag = get_by_tag; delete_by_id = delete_by_id; post = post }
