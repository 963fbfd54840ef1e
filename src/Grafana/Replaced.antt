-- ===== src/Grafana/Replaced.antt =====
-- What is tagged as an anomaly after the annotations are replaced.
use devops_demo.Base.{
  ◌≤◌, ◌≡◌, ◌⊎◌, inl, inr, refl, sym, subst, ◌∙◌, ap, String, Bool, true, ◌&&◌, Option, none, some,
  List, [], ◌∷◌, ◌++◌, map, ℤ, is_int64, int_eq, int_key, int_eq_iff, text_key, elem, All, length,
  nat_eq_iff, text_eq_iff, if◌then◌else◌, arith,
}
use mathlib.Core.List.{Perm, Permᴰ, perm_middle, append-nil}
use mathlib.Core.List.Perm
use mathlib.Core.Bool.{Bool-set}
use mathlib.Core.Path.{ap₂}
use mathlib.Core.Logic.{∥∥₁_elim}
use devops_demo.Grafana.{
  anomaly_tag, Annotation, ApiAnnotation, Response, failed, answered, Api, RequestError, Failure,
  accepted, decoded, list_by_tag, delete_annotation, create, unless_rejected, create_annotation,
  delete_stale, create_all, delete_all, after_list, replace_anomaly_annotations,
  compute_annotations,
}

abbrev pub without : ℤ → List ApiAnnotation → List ApiAnnotation
without id [] = []
without id (a ∷ xs) = let rest = without id xs in if int_eq a.id id then rest else a ∷ rest

abbrev pub annotations_of : List ApiAnnotation → List Annotation
annotations_of = map (λ a. a.annotation)

-- What the client relies on: `tagged` are the annotations with the anomaly tag, in any order. A list
-- request that is answered 200 changes nothing and gives them all, in any order, unless they are
-- more than its limit; a delete that is answered 200 removes those of its id; and a post that is
-- answered 200 adds an annotation that carries the tag. The ids that are listed are int64s, and only
-- such are deleted.
pub record IsAnnotationStore {S : Type 0} (api : Api S) (tagged : S → List ApiAnnotation)
    : Type 0 where
  pub lists :
      (s s' : S) (xs : List ApiAnnotation)
      → api.get_by_tag anomaly_tag s ≡ (answered 200 (some xs), s')
      → length (tagged s) ≤ 1000
      → Perm xs (tagged s) × Perm (tagged s') (tagged s) × All (λ x. is_int64 x.id ≡ true) xs
  pub deletes :
      (id : ℤ) (s s' : S) (u : Unit {0})
      → is_int64 id ≡ true
      → api.delete_by_id id s ≡ (answered 200 u, s')
      → Perm (tagged s') (without id (tagged s))
  pub posts :
      (a : Annotation) (s s' : S) (u : Unit {0})
      → elem anomaly_tag a.tags ≡ true
      → api.post a s ≡ (answered 200 u, s')
      → Perm (annotations_of (tagged s')) (a ∷ annotations_of (tagged s))

-- Every annotation of `xs` has one of the ids.
ids_cover : List ApiAnnotation → List ApiAnnotation → Bool
ids_cover ys [] = true
ids_cover ys (x ∷ xs) = elem x.id (map (λ y. y.id) ys) && ids_cover ys xs

and_turn : (a b c : Bool) → (a && (b && c)) ≡ (b && (a && c))
and_turn a b c = ground arith

-- The order does not matter.
ids_cover-permᴰ :
    (ys : List ApiAnnotation) {xs zs : List ApiAnnotation}
    → Permᴰ xs zs
    → ids_cover ys xs ≡ ids_cover ys zs
unfolding ids_cover
ids_cover-permᴰ ys Permᴰ.nil = refl
ids_cover-permᴰ ys (Permᴰ.cons e d) =
    ap₂ (λ x b. elem x.id (map (λ y. y.id) ys) && b) e (ids_cover-permᴰ ys d)
ids_cover-permᴰ ys (Permᴰ.swap {l = l} e f) =
    and_turn _ _ (ids_cover ys l)
    ∙ ap₂
        (λ x z.
          elem x.id (map (λ y. y.id) ys) && (elem z.id (map (λ y. y.id) ys) && ids_cover ys l))
        f e
ids_cover-permᴰ ys (Permᴰ.trans d e) = ids_cover-permᴰ ys d ∙ ids_cover-permᴰ ys e

ids_cover-perm :
    (ys : List ApiAnnotation) {xs zs : List ApiAnnotation}
    → Perm xs zs
    → ids_cover ys xs ≡ ids_cover ys zs
ids_cover-perm ys {xs} {zs} p =
    ∥∥₁_elim p (Bool-set (ids_cover ys xs) (ids_cover ys zs)) (ids_cover-permᴰ ys)

ids_cover-without :
    (y : ApiAnnotation) (ys xs : List ApiAnnotation)
    → ids_cover (y ∷ ys) xs ≡ true
    → ids_cover ys (without y.id xs) ≡ true
unfolding ids_cover
ids_cover-without y ys [] h = refl
ids_cover-without y ys (x ∷ xs) h =
    ground (arith, ids_cover-without y ys xs, int_eq_iff x.id y.id, int_eq_iff y.id x.id)

ids_cover-cons :
    (y : ApiAnnotation) (ys xs : List ApiAnnotation)
    → ids_cover ys xs ≡ true
    → ids_cover (y ∷ ys) xs ≡ true
unfolding ids_cover
ids_cover-cons y ys [] h = refl
ids_cover-cons y ys (x ∷ xs) h = ground (arith, ids_cover-cons y ys xs)

ids_cover_refl : (xs : List ApiAnnotation) → ids_cover xs xs ≡ true
unfolding ids_cover
ids_cover_refl [] = refl
ids_cover_refl (x ∷ xs) =
    ground (arith, ids_cover-cons x xs xs, ids_cover_refl xs, int_eq_iff x.id x.id)

ids_cover-nil : (xs : List ApiAnnotation) → ids_cover [] xs ≡ true → xs ≡ []
unfolding ids_cover
ids_cover-nil [] h = refl
ids_cover-nil (x ∷ xs) h = absurd (ground arith)

accepted-inr : {A : Type 0} (r : Response A) (a : A) → accepted r ≡ inr a → r ≡ answered 200 a
unfolding accepted
accepted-inr failed a h = absurd (ground arith)
accepted-inr (answered status body) a h = ground (arith, nat_eq_iff status 200)

decoded-inr :
    (r : RequestError ⊎ Option (List ApiAnnotation)) (xs : List ApiAnnotation)
    → decoded r ≡ inr xs
    → r ≡ inr (some xs)
unfolding decoded
decoded-inr (inl e) xs h = absurd (ground arith)
decoded-inr (inr none) xs h = absurd (ground arith)
decoded-inr (inr (some ys)) xs h = ground arith

module _ {S : Type 0} (api : Api S) where
  -- A loop that ends without an error has had its request accepted and has gone on.
  unless_rejected-none :
      (failure : RequestError → Failure) (next : S → Option Failure × S)
      (r : (RequestError ⊎ Unit {0}) × S)
      → (unless_rejected api failure next r).0 ≡ none
      → (r.0 ≡ inr tt) × (unless_rejected api failure next r ≡ next r.1)
  unfolding unless_rejected
  unless_rejected-none failure next (inl e, s) h = absurd (ground arith)
  unless_rejected-none failure next (inr u, s) h = (refl, refl)

  module _ (tagged : S → List ApiAnnotation) (store : IsAnnotationStore api tagged) where
    create-tagged :
        (a : Annotation) (s : S)
        → elem anomaly_tag a.tags ≡ true
        → (create api a s).0 ≡ inr tt
        → Perm (annotations_of (tagged (create api a s).1)) (a ∷ annotations_of (tagged s))
    unfolding create
    create-tagged a s t h =
        store.posts a s (api.post a s).1 tt t
          (ap (λ r. (r, (api.post a s).1)) (accepted-inr (api.post a s).0 tt h))

    delete_annotation-tagged :
        (id : ℤ) (s : S)
        → is_int64 id ≡ true
        → (delete_annotation api id s).0 ≡ inr tt
        → Perm (tagged (delete_annotation api id s).1) (without id (tagged s))
    unfolding delete_annotation
    delete_annotation-tagged id s i h =
        store.deletes id s (api.delete_by_id id s).1 tt i
          (ap (λ r. (r, (api.delete_by_id id s).1)) (accepted-inr (api.delete_by_id id s).0 tt h))

    create_all-tagged :
        (anns : List Annotation) (s : S)
        → All (λ a. elem anomaly_tag a.tags ≡ true) anns
        → (create_all api anns s).0 ≡ none
        → Perm
            (annotations_of (tagged (create_all api anns s).1))
            (annotations_of (tagged s) ++ anns)
    unfolding create_all
    create_all-tagged [] s t h = rw append-nil Perm.rfl
    create_all-tagged (a ∷ anns) s (now, later) h =
        let (sent, same) =
          unless_rejected-none (create_annotation a.text) (create_all api anns) (create api a s)
            h in
        let s₁ = (create api a s).1 in
        let rest = create_all-tagged anns s₁ later (sym (ap (λ r. r.0) same) ∙ h) in
        let moved =
          Perm.trans (Perm.append_right anns (create-tagged a s now sent))
            (Perm.symm (perm_middle (annotations_of (tagged s)) anns)) in
        rw same (Perm.trans rest moved)

    delete_all-tagged :
        (existing : List ApiAnnotation) (anns : List Annotation) (s : S)
        → All (λ a. elem anomaly_tag a.tags ≡ true) anns
        → All (λ x. is_int64 x.id ≡ true) existing
        → ids_cover existing (tagged s) ≡ true
        → (delete_all api existing (create_all api anns) s).0 ≡ none
        → Perm (annotations_of (tagged (delete_all api existing (create_all api anns) s).1)) anns
    unfolding delete_all
    delete_all-tagged [] anns s t i c h =
        subst
          (λ xs.
            Perm (annotations_of (tagged (create_all api anns s).1)) (annotations_of xs ++ anns))
          (ids_cover-nil (tagged s) c) (create_all-tagged anns s t h)
    delete_all-tagged (a ∷ existing) anns s t (now, later) c h =
        let next = delete_all api existing (create_all api anns) in
        let (sent, same) =
          unless_rejected-none (delete_stale a.id) next (delete_annotation api a.id s) h in
        let s₁ = (delete_annotation api a.id s).1 in
        let gone = delete_annotation-tagged a.id s now sent in
        let covered = ids_cover-perm existing gone ∙ ids_cover-without a existing (tagged s) c in
        let rest =
          delete_all-tagged existing anns s₁ t later covered (sym (ap (λ r. r.0) same) ∙ h) in
        rw same rest

    replace_anomaly_annotations-tagged :
        (anns : List Annotation) (s : S)
        → All (λ a. elem anomaly_tag a.tags ≡ true) anns
        → length (tagged s) ≤ 1000
        → (replace_anomaly_annotations api anns s).0 ≡ none
        → Perm (annotations_of (tagged (replace_anomaly_annotations api anns s).1)) anns
    unfolding replace_anomaly_annotations list_by_tag after_list
    replace_anomaly_annotations-tagged anns s t few h =
        go (decoded (accepted (api.get_by_tag anomaly_tag s).0)) refl h
      where
        go :
            (r : RequestError ⊎ List ApiAnnotation)
            → decoded (accepted (api.get_by_tag anomaly_tag s).0) ≡ r
            → (after_list api anns (r, (api.get_by_tag anomaly_tag s).1)).0 ≡ none
            → Perm
                (annotations_of
                  (tagged (after_list api anns (r, (api.get_by_tag anomaly_tag s).1)).1))
                anns
        go (inl e) p k = absurd (ground arith)
        go (inr existing) p k =
            let s₁ = (api.get_by_tag anomaly_tag s).1 in
            let answer =
              accepted-inr (api.get_by_tag anomaly_tag s).0 (some existing)
                (decoded-inr (accepted (api.get_by_tag anomaly_tag s).0) existing p) in
            let (listed, kept, int64s) = store.lists s s₁ existing (ap (λ x. (x, s₁)) answer) few in
            delete_all-tagged existing anns s₁ t int64s
              (ids_cover-perm existing (Perm.trans kept (Perm.symm listed))
                ∙ ids_cover_refl existing)
              k

-- Every computed annotation carries the tag.
compute_annotations-tagged :
    {N : Type 0} (window : N → ℤ × ℤ) (type_of text_of : N → String) (anomalies : List N)
    → All
        (λ a. elem anomaly_tag a.tags ≡ true)
        (compute_annotations window type_of text_of anomalies)
unfolding compute_annotations
compute_annotations-tagged window type_of text_of [] = tt
compute_annotations-tagged window type_of text_of (a ∷ anomalies) = (
  ground (arith, text_eq_iff anomaly_tag anomaly_tag),
  compute_annotations-tagged window type_of text_of anomalies,
)

pub replace_anomaly_annotations-compute_annotations :
    {S N : Type 0} (api : Api S) (tagged : S → List ApiAnnotation) (window : N → ℤ × ℤ)
    (type_of text_of : N → String) (anomalies : List N) (s : S)
    → IsAnnotationStore api tagged
    → length (tagged s) ≤ 1000
    → (replace_anomaly_annotations api (compute_annotations window type_of text_of anomalies) s).0
      ≡ none
    → Perm
        (annotations_of (
          tagged
            (replace_anomaly_annotations api
              (compute_annotations window type_of text_of anomalies)
              s).1))
        (compute_annotations window type_of text_of anomalies)
replace_anomaly_annotations-compute_annotations api tagged window type_of text_of anomalies s store
      few h =
    replace_anomaly_annotations-tagged api tagged store
      (compute_annotations window type_of text_of anomalies) s
      (compute_annotations-tagged window type_of text_of anomalies) few h
