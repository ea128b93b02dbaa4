-- ===== src/Tests/Listening.antt =====
-- Ports to listen on: cntlm-0.92.3/main.c.
use bev_search.Common.{ℕ, Option, some}
use bev_search.CString.{Bytes}
use bev_search.CString.Number.{ℤ, pos}

abbrev always : Bytes → Option ℕ
always name = some 7

abbrev six : ℕ → ℕ → ℤ
six port source = pos 6
