-- ===== src/Http/Body/Rules.antt =====
-- The rules by which a message has a body.
use bev_search.Common.{
  ◌≤◌, ◌<◌, Bool, true, false, none, some, if◌then◌else◌, ◌≡◌, ◌≢◌, ◌⊎◌, inl, inr, refl, sym, ap,
  ◌∙◌, arith,
}
use bev_search.CString.{Bytes, codes}
use bev_search.CString.Number.{ℤ, pos, negsuc, atoll}
use mathlib.Core.Option
use mathlib.Core.Option.{some-injective}
use bev_search.Hlist
use bev_search.RrData.{RrData}
use bev_search.Http.Body.{
  is_head, response_nobody, request_nobody, body_length, no_stream, http_has_body, nothing, chunked,
  is_zero, forwarding, http_body_send,
}

-- A response that has no body whatever its headers say.
abbrev pub Bodiless : RrData → RrData → Type 0
Bodiless request response =
    (is_head (some request) ≡ true)
    ⊎ ((100 ≤ response.code) × (response.code < 200))
    ⊎ (response.code ≡ 204)
    ⊎ (response.code ≡ 304)

body_length-nobody : (r : RrData) → body_length r true ≡ pos 0
unfolding body_length
body_length-nobody r = ground arith

nobody_of_Bodiless :
    (request response : RrData)
    → Bodiless request response
    → response_nobody (some request) response ≡ true
unfolding response_nobody
nobody_of_Bodiless request response (inl head) = rw head
nobody_of_Bodiless request response (inr (inl class)) = ground arith
nobody_of_Bodiless request response (inr (inr (inl code))) = ground arith
nobody_of_Bodiless request response (inr (inr (inr code))) = ground arith

-- The length of a response that is there.
has_body-response :
    (request response : RrData)
    → response.empty ≡ false
    → http_has_body (some request) (some response)
      ≡ some (body_length response (response_nobody (some request) response))
unfolding http_has_body
has_body-response request response present = rw present

http_body_send-response :
    (request response : RrData)
    → response.empty ≡ false
    → http_body_send request response
      ≡ some (forwarding response (body_length response (response_nobody (some request) response)))
unfolding http_body_send
http_body_send-response request response present =
    let current = λ (b : Bool). if b then request else response in
    ap (Option.map (forwarding (current response.empty)))
      (has_body-response request response present)
    ∙ ap
        (λ b.
          some (
            forwarding (current b)
              (body_length response (response_nobody (some request) response))))
        present

-- Nothing is forwarded for a response to HEAD, or with a code of class 1xx, 204 or 304, whatever
-- its headers say.
pub http_body_send-Bodiless :
    (request response : RrData)
    → response.empty ≡ false
    → Bodiless request response
    → http_body_send request response ≡ some nothing
http_body_send-Bodiless request response present rule =
    http_body_send-response request response present
    ∙ rw (nobody_of_Bodiless request response rule, body_length-nobody response)
        (unfold forwarding in refl)

no_stream-ne : (n : ℤ) → no_stream n ≢ negsuc 0
unfolding no_stream
no_stream-ne (pos n) e = cc
no_stream-ne (negsuc n) e = ground arith

has_body-request :
    (request response : RrData)
    → response.empty ≡ true
    → http_has_body (some request) (some response)
      ≡ some (no_stream (body_length request (request_nobody (some request))))
unfolding http_has_body
has_body-request request response absent = rw absent

-- For a request that is sent on alone the length is never that of a body until the end of the stream,
-- so the client need not close the connection; and for GET and HEAD it is 0.
pub http_has_body-request :
    (request response : RrData)
    → response.empty ≡ true
    → (http_has_body (some request) (some response) ≢ some (negsuc 0))
      × (request_nobody (some request) ≡ true
          → http_has_body (some request) (some response) ≡ some (pos 0))
http_has_body-request request response absent =
    let length = body_length request (request_nobody (some request)) in
    let alone = has_body-request request response absent in
    (
      λ e. no_stream-ne length (some-injective _ _ (sym alone ∙ e)),
      λ quiet.
          alone
          ∙ ap (λ b. some (no_stream (body_length request b))) quiet
          ∙ ap (λ n. some (no_stream n)) (body_length-nobody request)
          ∙ unfold no_stream in refl,
    )

-- A response with a chunked transfer encoding that may have a body is forwarded chunk by chunk if it
-- has no Content-Length, or one that is not 0; with one of 0 nothing is forwarded.
pub http_body_send-chunked :
    (request response : RrData)
    → response.empty ≡ false
    → response_nobody (some request) response ≡ false
    → Hlist.has response.headers (codes "Transfer-Encoding") ≡ true
    → Hlist.subcmp response.headers (codes "Transfer-Encoding") (codes "chunked") ≡ true
    → (Hlist.get response.headers (codes "Content-Length") ≡ none
        → http_body_send request response ≡ some chunked)
      × ((text : Bytes)
          → Hlist.get response.headers (codes "Content-Length") ≡ some text
          → http_body_send request response
            ≡ some (if is_zero (atoll text) then nothing else chunked))
http_body_send-chunked request response present body coded chunky =
    let sent = http_body_send-response request response present in
    (
      λ missing. sent ∙ rw body (unfold forwarding body_length in ground arith),
      λ text found. sent ∙ rw body (unfold forwarding body_length in ground arith),
    )
