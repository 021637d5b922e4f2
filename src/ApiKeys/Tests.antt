-- ===== src/ApiKeys/Tests.antt =====
-- A key that is created, used and revoked.
use Prim.Native.String
use loopstorm_guard.Common.{◌≡◌, ◌≢◌, refl, String, true, false, Option, none, some, [], ◌∷◌, arith}
use loopstorm_guard.Common.Texts.{trim, trim_end}
use loopstorm_guard.Review.Table.{first_where}
use loopstorm_guard.ApiKeys.Keys.{
  ApiKey, ApiKeyAuthResult, NewKey, revoked, not_found, take_chars, drop_chars, generate_api_key,
  new_row, create_key, revoke_key, key_of_header, match_key, check_expiry, is_expired,
  authenticate_api_key,
}
use loopstorm_guard.ApiKeys.Headers.{no_space}
use loopstorm_guard.ApiKeys.Revoked.{creates, touches, run, revoked_key-refused}
use loopstorm_guard.ApiKeys.Created.{created_key-authenticates}

abbrev same : String → String
same s = s

abbrev input : NewKey
input = record { name = "agent"; scopes = "ingest" ∷ []; expires_in_days = some 1 }

abbrev digits : String
digits = "00112233445566778899aabbccddeeff"

abbrev key : ApiKey
key = new_row (generate_api_key same digits) input "k1" "t1" "u1" 5

abbrev result : ApiKeyAuthResult
result = record { tenant_id = "t1"; api_key_id = "k1"; scopes = "ingest" ∷ [] }

abbrev header : Option String
header = some "Bearer  lsg_00112233445566778899aabbccddeeff "

accepted :
    authenticate_api_key same header 6 (create_key same digits input "k1" "t1" "u1" 5 []).0
    ≡ some result
unfolding authenticate_api_key key_of_header take_chars drop_chars trim trim_end match_key
    first_where check_expiry create_key generate_api_key
accepted = refl

expired : authenticate_api_key same header 86400006 (key ∷ []) ≡ none
unfolding authenticate_api_key key_of_header take_chars drop_chars trim trim_end match_key
    first_where check_expiry generate_api_key
expired = refl

foreign : revoke_key "k1" "t2" (key ∷ []) ≡ (key ∷ [], not_found)
unfolding revoke_key first_where generate_api_key
foreign = refl

own : (revoke_key "k1" "t1" (key ∷ [])).1 ≡ revoked "k1"
unfolding revoke_key first_where generate_api_key
own = refl

clean : no_space digits ≡ true
unfolding no_space
clean = refl

valid : is_expired 6 key ≡ false
unfolding generate_api_key
valid = refl

made :
    (create_key same digits input "k1" "t1" "u1" 5 []).1
    ≡ some (record {
      id = "k1";
      key = "lsg_00112233445566778899aabbccddeeff";
      key_prefix = "lsg_0011";
    })
unfolding create_key generate_api_key take_chars
made = refl

revoked_key-refused_example :
    authenticate_api_key same header 7 (
      run same
        (creates "ff" input "k2" "t1" "u1" 6 ∷ touches result 6 ∷ [])
        (revoke_key "k1" "t1" (key ∷ [])).0)
    ≢ some result
revoked_key-refused_example =
    revoked_key-refused same "k1" "t1" (key ∷ []) (refl, tt) own
      (creates "ff" input "k2" "t1" "u1" 6 ∷ touches result 6 ∷ []) header 7 result refl refl

created_key-authenticates_example :
    authenticate_api_key same
      (some (String.◌++◌ "Bearer " "lsg_00112233445566778899aabbccddeeff"))
      6
      (create_key same digits input "k1" "t1" "u1" 5 []).0
    ≡ some result
created_key-authenticates_example =
    created_key-authenticates same digits input "k1" "t1" "u1" 5 6 []
      (record { id = "k1"; key = "lsg_00112233445566778899aabbccddeeff"; key_prefix = "lsg_0011" })
      clean (omega arith) tt valid made
