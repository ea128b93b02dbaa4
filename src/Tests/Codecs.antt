-- ===== src/Tests/Codecs.antt =====
-- The hexadecimal and Base64 coders of cntlm-0.92.3/utils.c at concrete inputs.
use bev_search.Common.{true, [], ◌∷◌, ◌++◌, ◌≡◌, refl, arith}
use bev_search.CString.{codes}
use bev_search.Hex.{printmem, scanmem, memory, fault}
use bev_search.Hex.RoundTrip.{scanmem-printmem, scanmem_fault}
use bev_search.Base64.{to_base64, from_base64}
use bev_search.Base64.RoundTrip.{from_base64-to_base64}

printmem_run : printmem (0 ∷ 255 ∷ 0x1f ∷ []) 7 ≡ codes "00FF1F"
unfolding printmem
printmem_run = refl

scanmem-printmem_example : scanmem (printmem (0 ∷ 255 ∷ []) 8) 8 ≡ memory (0 ∷ 255 ∷ [])
scanmem-printmem_example = scanmem-printmem (0 ∷ 255 ∷ []) 8 (omega arith)

scanmem_fault_example : scanmem (printmem (7 ∷ []) 8 ++ 0xc4 ∷ b'0' ∷ []) 8 ≡ fault
scanmem_fault_example = scanmem_fault (7 ∷ []) [] 8 0xc4 b'0' (omega arith) (omega arith) refl

to_base64_run : to_base64 (codes "user:pw") 100 ≡ codes "dXNlcjpwdw=="
unfolding to_base64
to_base64_run = refl

from_base64-to_base64_example :
    from_base64 (to_base64 (codes "user:pw") 100) ≡ record { out = codes "user:pw"; good = true }
from_base64-to_base64_example =
    from_base64-to_base64 (codes "user:pw") 100 (cc) (omega arith) (omega arith)
