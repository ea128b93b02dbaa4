-- ===== src/Direct/Probing.antt =====
-- The first message of a handshake with a server: `web_probe`.
use bev_search.Common.{Bool, true, false, ◌||◌, some, map, ◌≡◌, refl, ap, ◌∙◌, arith}
use bev_search.CString.{Bytes, codes, same_nocase}
use bev_search.CString.Case.{same_nocase_refl}
use bev_search.Hlist
use bev_search.Hlist.Laws.{copy_of}
use bev_search.Hlist.Occurrences.{get-del_other, others, others-copies, others-del, others-modify}
use bev_search.RrData.{RrData, dup_rr_data}
use bev_search.Forward.Probing.{duplicate, set_header, kept_header}
use bev_search.Direct.{web_probe}

-- The names of the headers that differ between a request and its probe.
abbrev pub is_changed : Bytes → Bool
is_changed name =
    same_nocase name (codes "Connection")
    || same_nocase name (codes "Authorization")
    || same_nocase name (codes "Content-Length")
    || same_nocase name (codes "Transfer-Encoding")

-- The first message: it carries the request for a challenge, and the length 0; its first line and all
-- other headers, in their order, are those of the request.
pub record IsWebProbe (header : Bytes) (data0 sent : RrData) : Type 0 where
  pub authorised : Hlist.get sent.headers (codes "Authorization") ≡ some header
  pub bodiless : Hlist.get sent.headers (codes "Content-Length") ≡ some (codes "0")
  pub alive : Hlist.get sent.headers (codes "Connection") ≡ some (codes "keep-alive")
  pub others : others is_changed sent.headers ≡ map copy_of (others is_changed data0.headers)
  pub line :
      (sent.req ≡ data0.req)
      × (sent.method ≡ data0.method)
      × (sent.url ≡ data0.url)
      × (sent.http ≡ data0.http)

connection_changed : (j : Bytes) → same_nocase j (codes "Connection") ≡ true → is_changed j ≡ true
connection_changed j h = rw h refl

authorization_changed :
    (j : Bytes) → same_nocase j (codes "Authorization") ≡ true → is_changed j ≡ true
authorization_changed j h = ground (arith, h)

length_changed : (j : Bytes) → same_nocase j (codes "Content-Length") ≡ true → is_changed j ≡ true
length_changed j h = ground (arith, h)

encoding_changed :
    (j : Bytes) → same_nocase j (codes "Transfer-Encoding") ≡ true → is_changed j ≡ true
encoding_changed j h = ground (arith, h)

-- The four names differ.
apart :
    (same_nocase (codes "Transfer-Encoding") (codes "Authorization") ≡ false)
    × (same_nocase (codes "Content-Length") (codes "Authorization") ≡ false)
    × (same_nocase (codes "Transfer-Encoding") (codes "Content-Length") ≡ false)
    × (same_nocase (codes "Transfer-Encoding") (codes "Connection") ≡ false)
    × (same_nocase (codes "Content-Length") (codes "Connection") ≡ false)
    × (same_nocase (codes "Authorization") (codes "Connection") ≡ false)
unfolding same_nocase
apart = (refl, refl, refl, refl, refl, refl)

pub web_probe-IsWebProbe :
    (header : Bytes) (data0 : RrData) → IsWebProbe header data0 (web_probe header data0)
unfolding web_probe
web_probe-IsWebProbe header data0 =
    let copy = duplicate data0 in
    let l = (dup_rr_data data0).headers in
    let cn = codes "Connection" in
    let au = codes "Authorization" in
    let cl = codes "Content-Length" in
    let te = codes "Transfer-Encoding" in
    let first = Hlist.modify l cn (codes "keep-alive") true in
    let second = Hlist.modify first au header true in
    let all = Hlist.modify second cl (codes "0") true in
    let copied : l ≡ map copy_of data0.headers = ap (λ (r : RrData). r.headers) copy in
    let (te_au, cl_au, te_cl, te_cn, cl_cn, au_cn) = apart in
    record {
      authorised =
          get-del_other all te au te_au
          ∙ kept_header second cl (codes "0") au cl_au
          ∙ set_header first au header (same_nocase_refl au);
      bodiless =
          get-del_other all te cl te_cl ∙ set_header second cl (codes "0") (same_nocase_refl cl);
      alive =
          get-del_other all te cn te_cn
          ∙ kept_header second cl (codes "0") cn cl_cn
          ∙ kept_header first au header cn au_cn
          ∙ set_header l cn (codes "keep-alive") (same_nocase_refl cn);
      others =
          others-del is_changed te encoding_changed all
          ∙ others-modify is_changed cl length_changed second (codes "0") true (same_nocase_refl cl)
          ∙ others-modify is_changed au authorization_changed first header true
              (same_nocase_refl au)
          ∙ others-modify is_changed cn connection_changed l (codes "keep-alive") true
              (same_nocase_refl cn)
          ∙ ap (others is_changed) copied
          ∙ others-copies is_changed data0.headers;
      line = (
        ap (λ (r : RrData). r.req) copy,
        ap (λ (r : RrData). r.method) copy,
        ap (λ (r : RrData). r.url) copy,
        ap (λ (r : RrData). r.http) copy,
      );
    }
