-- ===== src/RrData.antt =====
-- The requests and responses of cntlm-0.92.3/utils.c (`rr_data_t`). `none` is a NULL pointer, and the
-- list of headers is NULL when it is empty. `code` and `port` are the bit patterns of 32-bit ints.
pub mod Copies
use bev_search.Common.{
  ℕ, suc, Bool, true, false, Option, none, some, List, [], ◌∷◌, ltb, if◌then◌else◌, take,
}
use bev_search.CString.{Bytes}
use bev_search.Hlist
use bev_search.Hlist.{Hlist}

pub record RrData : Type 0 where
  pub req : Bool
  pub headers : Hlist
  pub code : ℕ
  pub skip_http : Bool
  pub body_len : ℕ
  pub empty : Bool
  pub port : ℕ
  pub method : Option Bytes
  pub url : Option Bytes
  pub rel_url : Option Bytes
  pub hostname : Option Bytes
  pub http : Option Bytes
  pub msg : Option Bytes
  pub body : Option Bytes
  pub errmsg : Option Bytes

unfoldable pub new_rr_data : RrData
new_rr_data = record {
  req = false;
  headers = [];
  code = 0;
  skip_http = false;
  body_len = 0;
  empty = true;
  port = 0;
  method = none;
  url = none;
  rel_url = none;
  hostname = none;
  http = none;
  msg = none;
  body = none;
  errmsg = none;
}

-- The structure keeps its place; each of its members is reset.
unfoldable pub reset_rr_data : RrData → RrData
reset_rr_data r = record r {
  req = false;
  headers = [];
  code = 0;
  skip_http = false;
  body_len = 0;
  empty = true;
  port = 0;
  method = none;
  url = none;
  rel_url = none;
  hostname = none;
  http = none;
  msg = none;
  body = none;
  errmsg = none;
}

-- `if (src->m) dst->m = strdup(src->m)`
or_kept : Option Bytes → Option Bytes → Option Bytes
or_kept none old = old
or_kept (some s) old = some s

-- `if (src->headers) dst->headers = hlist_dup(src->headers)`
headers_copied : Hlist → Hlist → Hlist
headers_copied [] old = old
headers_copied (t ∷ ts) old = Hlist.dup (t ∷ ts)

-- The body is copied by its stated length, if that is not 0.
body_copied : Option Bytes → ℕ → Option Bytes → Option Bytes
body_copied none len old = old
body_copied (some b) len old = if ltb 0 len then some (take len b) else old

unfoldable pub copy_rr_data : RrData → RrData → RrData
unfolding reset_rr_data or_kept headers_copied body_copied
copy_rr_data dst src =
    let clean = reset_rr_data dst in
    record clean {
      req = src.req;
      code = src.code;
      skip_http = src.skip_http;
      body_len = src.body_len;
      empty = src.empty;
      port = src.port;
      headers = headers_copied src.headers clean.headers;
      method = or_kept src.method clean.method;
      url = or_kept src.url clean.url;
      rel_url = or_kept src.rel_url clean.rel_url;
      hostname = or_kept src.hostname clean.hostname;
      http = or_kept src.http clean.http;
      msg = or_kept src.msg clean.msg;
      body = body_copied src.body src.body_len clean.body;
    }

unfoldable pub dup_rr_data : RrData → RrData
unfolding copy_rr_data new_rr_data
dup_rr_data r = copy_rr_data new_rr_data r
