-- ===== src/Forward/Probing.antt =====
-- The first message of a handshake: the request without its body.
use bev_search.Common.{
  or_true, ◌-◌, Bool, true, false, ◌||◌, none, some, map, if◌then◌else◌, ◌≡◌, refl, ap, ◌∙◌,
}
use bev_search.CString.{Bytes, codes, same_nocase}
use bev_search.Hlist
use bev_search.Hlist.{Hlist}
use bev_search.Hlist.Laws.{copy_of, get-modify}
use bev_search.Hlist.Occurrences.{
  occurrences, occurrences-modify, occurrences-del, get-del_other, occurrences-copies, others,
  others-copies, others-del, others-modify,
}
use bev_search.RrData.{RrData, new_rr_data, dup_rr_data}
use bev_search.RrData.Copies.{stated_body, copy_rr_data_all}
use bev_search.Http.Body.{is_head}
use bev_search.Forward.{probe}

-- The names of the headers that differ between a request and its probe.
abbrev pub is_changed : Bytes → Bool
is_changed name =
    same_nocase name (codes "Proxy-Authorization")
    || same_nocase name (codes "Content-Length")
    || same_nocase name (codes "Transfer-Encoding")

-- What the probe for a request is: the other headers are those of the request, each as it stands, and
-- in their order.
pub record IsProbe (header : Bytes) (request sent : RrData) : Type 0 where
  pub authorised : Hlist.get sent.headers (codes "Proxy-Authorization") ≡ some header
  pub bodiless : Hlist.get sent.headers (codes "Content-Length") ≡ some (codes "0")
  pub fewer :
      occurrences sent.headers (codes "Transfer-Encoding")
      ≡ occurrences request.headers (codes "Transfer-Encoding") - 1
  pub others : others is_changed sent.headers ≡ map copy_of (others is_changed request.headers)
  pub head : is_head (some request) ≡ true → sent.method ≡ some (codes "GET")
  pub no_head : is_head (some request) ≡ false → sent.method ≡ request.method
  pub line :
      (sent.req ≡ request.req)
      × (sent.url ≡ request.url)
      × (sent.http ≡ request.http)
      × (sent.skip_http ≡ request.skip_http)

-- The three names differ.
apart :
    (same_nocase (codes "Proxy-Authorization") (codes "Transfer-Encoding") ≡ false)
    × (same_nocase (codes "Content-Length") (codes "Transfer-Encoding") ≡ false)
    × (same_nocase (codes "Content-Length") (codes "Proxy-Authorization") ≡ false)
    × (same_nocase (codes "Transfer-Encoding") (codes "Proxy-Authorization") ≡ false)
    × (same_nocase (codes "Transfer-Encoding") (codes "Content-Length") ≡ false)
    × (same_nocase (codes "Proxy-Authorization") (codes "Proxy-Authorization") ≡ true)
    × (same_nocase (codes "Content-Length") (codes "Content-Length") ≡ true)
unfolding same_nocase
apart = (refl, refl, refl, refl, refl, refl, refl)

pub duplicate :
    (request : RrData)
    → dup_rr_data request ≡ record request {
      headers = map copy_of request.headers;
      body = stated_body request;
      errmsg = none;
    }
duplicate request = let copy = copy_rr_data_all new_rr_data request in copy.1 ∙ copy.0

pa_changed : (j : Bytes) → same_nocase j (codes "Proxy-Authorization") ≡ true → is_changed j ≡ true
pa_changed j h = rw h refl

cl_changed : (j : Bytes) → same_nocase j (codes "Content-Length") ≡ true → is_changed j ≡ true
cl_changed j h = rw h (ap (λ b. b || same_nocase j (codes "Transfer-Encoding")) (or_true _))

te_changed : (j : Bytes) → same_nocase j (codes "Transfer-Encoding") ≡ true → is_changed j ≡ true
te_changed j h = rw h (or_true _)

-- A header that is set is there.
pub set_header :
    (l : Hlist) (k v : Bytes)
    → same_nocase k k ≡ true
    → Hlist.get (Hlist.modify l k v true) k ≡ some v
set_header l k v h =
    get-modify l k v k true
    ∙ ap (λ b. if b then (if Hlist.has l k || true then some v else none) else Hlist.get l k) h
    ∙ ap (λ b. if b then some v else none) (or_true (Hlist.has l k))

pub kept_header :
    (l : Hlist) (k v j : Bytes)
    → same_nocase k j ≡ false
    → Hlist.get (Hlist.modify l k v true) j ≡ Hlist.get l j
kept_header l k v j h =
    get-modify l k v j true
    ∙ ap (λ b. if b then (if Hlist.has l k || true then some v else none) else Hlist.get l j) h

-- The probe for a request carries the first message of NTLM, has the length 0 and one
-- Transfer-Encoding header fewer. All other headers are those of the request, in their order, and so
-- are the URL and the version, and the method, but for HEAD, which becomes GET.
pub probe-IsProbe :
    (header : Bytes) (request : RrData) → IsProbe header request (probe header request)
unfolding probe
probe-IsProbe header request =
    let copy = duplicate request in
    let l = (dup_rr_data request).headers in
    let pa = codes "Proxy-Authorization" in
    let cl = codes "Content-Length" in
    let te = codes "Transfer-Encoding" in
    let first = Hlist.modify l pa header true in
    let all = Hlist.modify first cl (codes "0") true in
    let copied : l ≡ map copy_of request.headers = ap (λ (r : RrData). r.headers) copy in
    let (pa_te, cl_te, cl_pa, te_pa, te_cl, pa_pa, cl_cl) = apart in
    record {
      authorised =
          get-del_other all te pa te_pa
          ∙ kept_header first cl (codes "0") pa cl_pa
          ∙ set_header l pa header pa_pa;
      bodiless = get-del_other all te cl te_cl ∙ set_header first cl (codes "0") cl_cl;
      fewer =
          occurrences-del all te
          ∙ ap (λ n. n - 1)
              (occurrences-modify first cl (codes "0") te true cl_te
                ∙ occurrences-modify l pa header te true pa_te
                ∙ ap (λ l. occurrences l te) copied
                ∙ occurrences-copies request.headers te);
      others =
          others-del is_changed te te_changed all
          ∙ others-modify is_changed cl cl_changed first (codes "0") true cl_cl
          ∙ others-modify is_changed pa pa_changed l header true pa_pa
          ∙ ap (others is_changed) copied
          ∙ others-copies is_changed request.headers;
      head = λ h. rw h refl;
      no_head = λ h. rw h (ap (λ (r : RrData). r.method) copy);
      line = (
        ap (λ (r : RrData). r.req) copy,
        ap (λ (r : RrData). r.url) copy,
        ap (λ (r : RrData). r.http) copy,
        ap (λ (r : RrData). r.skip_http) copy,
      );
    }
