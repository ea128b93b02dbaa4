-- ===== src/Tests/Responses.antt =====
-- The keys of DES and the third message of the handshake.
use bev_search.Common.{◌≤◌, ◌<◌, ◌≡◌, refl, arith, some, none, [], ◌∷◌, ◌++◌, replicate, take, drop}
use bev_search.CString.{Bytes}
use bev_search.Strings.{c_str, unicode, widen}
use bev_search.Auth.{Auth, zeroed}
use bev_search.Ntlm.Keys.{Crypto, Moment, Hashes, ntlm_set_key, key_of, key_byte}
use bev_search.Ntlm.Keys.Fields.{IsKeyOf, ntlm_set_key-IsKeyOf}
use bev_search.Ntlm.Buffer.{slice}
use bev_search.Ntlm.Request.{Message, ntlm_bufsize}
use bev_search.Ntlm.Target.{TargetInfo, target_info, walk, round, pair_of, val16, closed}
use bev_search.Ntlm.Response.{names_of, hashes_of, ntlm_response}
use bev_search.Ntlm.Response.Sizes.{IsSized, AreSecrets, nt_size}
use bev_search.Ntlm.Response.Layout.{IsResponse}
use bev_search.Ntlm.Response.Outcome.{needed, IsChallenge, ntlm_response-IsResponse}

abbrev seven : Bytes
seven = 0x4b ∷ 0xff ∷ 0x01 ∷ 0x80 ∷ 0x7f ∷ 0x00 ∷ 0xaa ∷ 0x55 ∷ []

ntlm_set_key-IsKeyOf_example :
    (key : Bytes) × (ntlm_set_key seven 1 ≡ some key) × IsKeyOf (take 7 (drop 1 seven)) key
ntlm_set_key-IsKeyOf_example = ntlm_set_key-IsKeyOf seven 1 (omega arith) (omega arith)

ntlm_set_key_run :
    ntlm_set_key seven 1 ≡ some (0xff ∷ 0x80 ∷ 0x60 ∷ 0x0f ∷ 0xf0 ∷ 0x05 ∷ 0xa9 ∷ 0xaa ∷ [])
unfolding ntlm_set_key slice key_of key_byte
ntlm_set_key_run = refl

abbrev pub crypto : Crypto
crypto = record {
  des = λ key block. replicate 8 7;
  md4 = λ s. replicate 16 4;
  md5 = λ s. replicate 16 5;
  hmac_md5 = λ key s. replicate 16 6;
}

abbrev moment : Moment
moment = record { nonce = replicate 8 1; time = 0 }

crypto-IsSized : IsSized crypto moment
crypto-IsSized = record {
  des = λ key block. refl;
  md5 = λ s. refl;
  hmac_md5 = λ key s. refl;
  nonce = refl;
}

abbrev alice : Bytes
alice = b'a' ∷ b'l' ∷ replicate 48 0

abbrev creds : Auth
creds = record {
  user = alice;
  domain = alice;
  workstation = alice;
  passlm = zeroed;
  passnt = zeroed;
  passntlm2 = zeroed;
  hashntlm2 = 1;
  hashnt = 0;
  hashlm = 0;
  flags = 0;
}

creds-AreSecrets : AreSecrets creds
creds-AreSecrets = record {
  passlm = (refl, omega arith);
  passnt = (refl, omega arith);
  passntlm2 = (refl, omega arith);
}

-- Target information of one pair and the end, at 48.
abbrev challenge : Bytes
challenge = replicate 44 0 ++ 48 ∷ 0 ∷ 0 ∷ 0 ∷ 2 ∷ 0 ∷ 2 ∷ 0 ∷ b'D' ∷ 0 ∷ 0 ∷ 0 ∷ 0 ∷ 0 ∷ []

abbrev info : TargetInfo
info = record { tbofs = 48; tblen = 10; ttype = 0 }

challenge-IsChallenge : IsChallenge challenge 58 info
unfolding target_info walk round pair_of val16 closed
challenge-IsChallenge = record {
  bytes = omega arith;
  room = omega arith;
  found = refl;
  within = omega arith;
}

ntlm_response-IsResponse_example :
    (needed creds info ≤ ntlm_bufsize
      → (hashes : Hashes) × (m : Message) × (hashes_of crypto moment creds challenge info
          ≡ some hashes)
        × (ntlm_response crypto moment challenge 58 creds ≡ some m)
        × IsResponse (names_of creds) hashes (take 4 (drop 20 challenge)) m)
    × (0 < nt_size creds info.tblen
        → ntlm_bufsize < needed creds info
        → ntlm_response crypto moment challenge 58 creds ≡ none)
ntlm_response-IsResponse_example =
    ntlm_response-IsResponse crypto moment creds challenge 58 info crypto-IsSized creds-AreSecrets
      challenge-IsChallenge (λ on empty. omega (arith, empty)) refl

-- The first of the two cases is met.
needed_run : needed creds info ≤ ntlm_bufsize
unfolding names_of c_str unicode widen
needed_run = omega arith
