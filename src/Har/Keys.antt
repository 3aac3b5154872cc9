-- ===== src/Har/Keys.antt =====
-- The dicts that `to_har_dict` makes have no key twice, at any depth.
use second_eye.Prelude.{
  ℕ, ◌≡◌, refl, none, List, [], ◌∷◌, ◌==◌, list_eq, nat_eq, Option-cases, inl, inr, if_cases,
  length,
}
use second_eye.Prelude.Text.{Text, codes}
use second_eye.Json.{
  Json, null, bool, int, neg, flt, str, arr, obj, Items, nil, cons, Fields, end, field, get, put,
  update, Codecs,
}
use second_eye.Har.{HarHeader, HarRequest, HarResponse, HarEntry, header_value}
use second_eye.Har.Render.{
  or_text, headers_json, encode_body, mime_type, request_to_har_dict, response_to_har_dict,
  to_har_dict,
}

abbrev mutual
  pub IsValue : Json → Type 0
  IsValue null = Unit
  IsValue (bool b) = Unit
  IsValue (int n) = Unit
  IsValue (neg n) = Unit
  IsValue (flt x) = Unit
  IsValue (str t) = Unit
  IsValue (arr vs) = AreValues vs
  IsValue (obj fs) = IsDict fs

  pub AreValues : Items → Type 0
  AreValues nil = Unit
  AreValues (cons v vs) = IsValue v × AreValues vs

  pub IsDict : Fields → Type 0
  IsDict end = Unit
  IsDict (field k v fs) = (get k fs ≡ none) × IsValue v × IsDict fs

headers_json-AreValues : (hs : List HarHeader) → AreValues (headers_json hs)
unfolding headers_json get list_eq nat_eq
headers_json-AreValues [] = tt
headers_json-AreValues (h ∷ hs) = ((refl, tt, (refl, tt, tt)), headers_json-AreValues hs)

module _ (c : Codecs) where
  post_data-IsDict :
      (m : Text) (b : List ℕ)
      → IsDict (update (field (codes "mimeType") (str m) end) (encode_body c b))
  unfolding encode_body update put get nat_eq list_eq
  post_data-IsDict m b = elim (Option-cases (c.utf8_decode b)) [
    | inl bad ↦ rw (bad, encode_body) (refl, tt, (refl, tt, (refl, tt, tt)))
    | inr (t, good) ↦ rw (good, encode_body) (refl, tt, (refl, tt, tt))
  ]

  content-IsDict :
      (n : ℕ) (m : Text) (b : List ℕ)
      → IsDict (
          update
            (field (codes "size") (int n) (field (codes "mimeType") (str m) end))
            (encode_body c b))
  unfolding encode_body update put get nat_eq list_eq
  content-IsDict n m b = elim (Option-cases (c.utf8_decode b)) [
    | inl bad ↦ rw (bad, encode_body) (refl, tt, (refl, tt, (refl, tt, (refl, tt, tt))))
    | inr (t, good) ↦ rw (good, encode_body) (refl, tt, (refl, tt, (refl, tt, tt)))
  ]

  request_to_har_dict-IsDict : (r : HarRequest) → IsDict (request_to_har_dict c r)
  unfolding request_to_har_dict mime_type get put nat_eq list_eq
  request_to_har_dict-IsDict r =
      let hs = headers_json-AreValues r.headers in
      let m =
        or_text (header_value r.headers (codes "content-type"))
          (codes "application/octet-stream") in
      if_cases IsDict (r.body == []) _ _
        (λ _. (
          refl,
          tt,
          (refl, tt, (refl, tt, (refl, hs, (refl, tt, (refl, tt, (refl, tt, (refl, tt, tt))))))),
        ))
        (λ _. (
          refl,
          tt,
          (
            refl,
            tt,
            (
              refl,
              tt,
              (
                refl,
                hs,
                (
                  refl,
                  tt,
                  (refl, tt, (refl, tt, (refl, tt, (refl, post_data-IsDict m r.body, tt)))),
                ),
              ),
            ),
          ),
        ))

  response_to_har_dict-IsDict : (r : HarResponse) → IsDict (response_to_har_dict c r)
  unfolding response_to_har_dict mime_type get nat_eq list_eq
  response_to_har_dict-IsDict r = (
    refl,
    tt,
    (
      refl,
      tt,
      (
        refl,
        tt,
        (
          refl,
          headers_json-AreValues r.headers,
          (
            refl,
            tt,
            (
              refl,
              content-IsDict (length r.body)
                  (or_text (header_value r.headers (codes "content-type"))
                    (codes "application/octet-stream"))
                  r.body,
              (refl, tt, (refl, tt, (refl, tt, tt))),
            ),
          ),
        ),
      ),
    ),
  )

  pub to_har_dict-IsDict : (e : HarEntry) → IsDict (to_har_dict c e)
  unfolding to_har_dict get nat_eq list_eq
  to_har_dict-IsDict e = (
    refl,
    tt,
    (
      refl,
      tt,
      (
        refl,
        request_to_har_dict-IsDict e.request,
        (
          refl,
          response_to_har_dict-IsDict e.response,
          (refl, tt, (refl, (refl, tt, (refl, tt, (refl, tt, tt))), tt)),
        ),
      ),
    ),
  )
