-- ===== src/ApiKeys/Created.antt =====
-- A new key opens the door of its tenant.
use text.Mathlib.TextLemmas.{append-eq-nil_iff}
use loopstorm_guard.Common.{
  ℕ, zero, suc, ◌≤◌, ◌≡◌, refl, sym, ap, inl, inr, String, Bool, true, false, Option, none, some,
  List, [], ◌∷◌, ◌++◌, any, filter, take, length, length-append, All, str_eq, str_eq_iff, arith,
  Bool-cases,
}
use loopstorm_guard.Review.Table.{first_where}
use loopstorm_guard.ApiKeys.Keys.{
  ◌<>◌, ApiKey, NewKey, CreatedKey, take_chars, raw_key, generate_api_key, new_row, create_key,
  is_candidate, is_expired, match_key, check_expiry, auth_result, authenticate_api_key,
}
use loopstorm_guard.ApiKeys.Headers.{no_space, no_space-append, key_of_header-bearer}

take_few {ℓ} : {A : Type ℓ} (n : ℕ) (xs : List A) → length xs ≤ n → take n xs ≡ xs
take_few zero [] h = refl
take_few zero (x ∷ xs) h = absurd (omega (arith, h))
take_few (suc n) [] h = refl
take_few (suc n) (x ∷ xs) h = ap (λ ys. x ∷ ys) (take_few n xs (omega (arith, h)))

filter-last :
    (test : ApiKey → Bool) (xs : List ApiKey) (x : ApiKey)
    → test x ≡ true
    → filter test (xs ++ x ∷ []) ≡ filter test xs ++ x ∷ []
filter-last test [] x h = rw h refl
filter-last test (y ∷ ys) x h = elim (Bool-cases (test y)) [
  | inl e ↦ rw (e, filter) (ap (λ (zs : List ApiKey). y ∷ zs) (filter-last test ys x h))
  | inr e ↦ rw (e, filter) (filter-last test ys x h)
]

-- The last candidate is found if no other passes the test.
first_where-last :
    (keep test : ApiKey → Bool) (xs : List ApiKey) (x : ApiKey)
    → test x ≡ true
    → All (λ k. test k ≡ false) xs
    → first_where test (filter keep xs ++ x ∷ []) ≡ some x
unfolding first_where
first_where-last keep test [] x h others = rw h refl
first_where-last keep test (y ∷ ys) x h (other, others) = elim (Bool-cases (keep y)) [
  | inl e ↦ rw (e, other, filter) (first_where-last keep test ys x h others)
  | inr e ↦ rw (e, filter) (first_where-last keep test ys x h others)
]

module _ (sha256 : String → String) (random_hex : String) (input : NewKey)
    (id tenant_id user_id : String) (now : ℕ) where
  new_key : ApiKey
  new_key = new_row (generate_api_key sha256 random_hex) input id tenant_id user_id now

  -- The prefix by which a key is looked up is the stored one.
  new_key-candidate : is_candidate (take_chars 8 (raw_key random_hex)) new_key ≡ true
  unfolding new_key generate_api_key
  new_key-candidate =
      ground
        (arith, str_eq_iff (take_chars 8 (raw_key random_hex)) (take_chars 8 (raw_key random_hex)))

  new_key-hash : str_eq new_key.key_hash (sha256 (raw_key random_hex)) ≡ true
  unfolding new_key generate_api_key
  new_key-hash = (str_eq_iff (sha256 (raw_key random_hex)) (sha256 (raw_key random_hex))).1 refl

  raw_key-no_space : no_space random_hex ≡ true → no_space (raw_key random_hex) ≡ true
  unfolding no_space
  raw_key-no_space h = no_space-append "lsg_" random_hex refl h

  raw_key-ne : str_eq (raw_key random_hex) "" ≡ false
  raw_key-ne = elim (Bool-cases (str_eq (raw_key random_hex) "")) [
    | inr e ↦ e
    | inl e ↦
        let nil = (str_eq_iff (raw_key random_hex) "").0 e in
        let (lsg, _) = append-eq-nil_iff.0 nil in
        absurd (ground (arith, (str_eq_iff "lsg_" "").1 lsg))
  ]

  match_key-created :
      (table : List ApiKey)
      → length (filter (is_candidate (take_chars 8 (raw_key random_hex))) table) ≤ 4
      → All (λ k. str_eq k.key_hash (sha256 (raw_key random_hex)) ≡ false) table
      → match_key sha256 (raw_key random_hex) (table ++ new_key ∷ []) ≡ some new_key
  unfolding match_key
  match_key-created table few others =
      let test = is_candidate (take_chars 8 (raw_key random_hex)) in
      let found = filter-last test table new_key new_key-candidate in
      let all =
        take_few 5 (filter test table ++ new_key ∷ [])
          (omega (arith, few, length-append (filter test table) (new_key ∷ []))) in
      rw (match_key, found, all)
        (first_where-last test (λ k. str_eq k.key_hash (sha256 (raw_key random_hex))) table new_key
          new_key-hash others)

abbrev key_text : Option CreatedKey → String
key_text none = ""
key_text (some c) = c.key

-- A key that has been created opens the door of its tenant, with its scopes, when it is presented as
-- it was returned: if its random digits have no white space, no stored key has its hash, at most
-- four keys that are not revoked share its first eight characters, and it has not expired.
pub created_key-authenticates :
    (sha256 : String → String) (random_hex : String) (input : NewKey)
    (id tenant_id user_id : String) (now later : ℕ) (table : List ApiKey) (c : CreatedKey)
    → no_space random_hex ≡ true
    → length (filter (is_candidate (take_chars 8 (raw_key random_hex))) table) ≤ 4
    → All (λ k. str_eq k.key_hash (sha256 (raw_key random_hex)) ≡ false) table
    → is_expired later (new_row (generate_api_key sha256 random_hex) input id tenant_id user_id now)
      ≡ false
    → (create_key sha256 random_hex input id tenant_id user_id now table).1 ≡ some c
    → authenticate_api_key sha256
        (some ("Bearer " <> c.key))
        later
        (create_key sha256 random_hex input id tenant_id user_id now table).0
      ≡ some (record { tenant_id = tenant_id; api_key_id = id; scopes = input.scopes })
unfolding create_key new_key generate_api_key check_expiry authenticate_api_key
created_key-authenticates sha256 random_hex input id tenant_id user_id now later table c clean few
      others valid made =
    elim (Bool-cases (any (λ k. str_eq k.id id) table)) [
      | inl e ↦ absurd (ground (arith, rw (create_key, e) at made))
      | inr e ↦
          let g = generate_api_key sha256 random_hex in
          let same : c.key ≡ raw_key random_hex = sym (ap key_text (rw (create_key, e) at made)) in
          let table' = table ++ new_row g input id tenant_id user_id now ∷ [] in
          let found : match_key sha256 (raw_key random_hex) table'
              ≡ some (new_row g input id tenant_id user_id now) =
            match_key-created sha256 random_hex input id tenant_id user_id now table few others in
          let answered : authenticate_api_key sha256 (some ("Bearer " <> c.key)) later table'
              ≡ some (auth_result (new_row g input id tenant_id user_id now)) =
            rw
              (
                same,
                authenticate_api_key,
                key_of_header-bearer (raw_key random_hex)
                    (raw_key-no_space sha256 random_hex input id tenant_id user_id now clean)
                    (raw_key-ne sha256 random_hex input id tenant_id user_id now),
                found,
                check_expiry,
                valid,
              )
              refl in
          rw (create_key, e) answered
    ]
