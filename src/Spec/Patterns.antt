-- ===== src/Spec/Patterns.antt =====
-- The regular expressions of internal/spec and internal/provision.
use dash_network_go.Common.{String, ◌≡◌, refl, Bool, true, false, [], ◌∷◌}
use dash_network_go.Common.Regex.{
  Regex, one_of, seq, alt, star, word, times, up_to, plus, lower, digit, hex, matches,
}

abbrev slug_char : Regex
slug_char = one_of ((b'a', b'z') ∷ (b'0', b'9') ∷ (b'-', b'-') ∷ [])

-- ^[a-z][a-z0-9-]{0,62}$
unfoldable pub is_slug : String → Bool
unfolding matches up_to
is_slug s = matches (seq lower (up_to 62 slug_char)) s

-- ^[0-9]{12}$
unfoldable pub is_account : String → Bool
unfolding matches times
is_account s = matches (times 12 digit) s

-- ^[a-z]{2}(-[a-z]+)+-[0-9]+$
unfoldable pub is_region : String → Bool
unfolding matches times plus word
is_region s =
    matches
      (seq (times 2 lower) (seq (plus (seq (word "-") (plus lower))) (seq (word "-") (plus digit))))
      s

-- ^[a-z][a-z0-9-]*\.[a-z0-9]+$
unfoldable pub is_instance_type : String → Bool
unfolding matches plus word
is_instance_type s =
    matches
      (seq lower
        (seq (star slug_char) (seq (word ".") (plus (one_of ((b'a', b'z') ∷ (b'0', b'9') ∷ []))))))
      s

-- ^(vpc|subnet|sg|ami)-([0-9a-f]{8}|[0-9a-f]{17})$
unfoldable pub is_resource_id : String → Bool
unfolding matches times word
is_resource_id s =
    matches
      (seq (alt (word "vpc") (alt (word "subnet") (alt (word "sg") (word "ami"))))
        (seq (word "-") (alt (times 8 hex) (times 17 hex))))
      s

-- ^[a-zA-Z0-9_.-]{3,255}$
unfoldable pub is_table_name : String → Bool
unfolding matches times up_to
is_table_name s =
    let c = one_of (
      (b'a', b'z')
      ∷ (b'A', b'Z')
      ∷ (b'0', b'9')
      ∷ (b'_', b'_')
      ∷ (b'.', b'.')
      ∷ (b'-', b'-')
      ∷ []) in
    matches (seq (times 3 c) (up_to 252 c)) s

-- ^ipam-pool-[0-9a-f]{17}$
unfoldable pub is_ipam_pool_id : String → Bool
unfolding matches times word
is_ipam_pool_id s = matches (seq (word "ipam-pool-") (times 17 hex)) s

-- ^[0-9a-f]{64}$ and its shorter and longer forms
unfoldable pub is_hex64 : String → Bool
unfolding matches times
is_hex64 s = matches (times 64 hex) s

unfoldable pub is_hex40 : String → Bool
unfolding matches times
is_hex40 s = matches (times 40 hex) s

unfoldable pub is_hex96 : String → Bool
unfolding matches times
is_hex96 s = matches (times 96 hex) s

-- ^sha256:[0-9a-f]{64}$
unfoldable pub is_sha256_digest : String → Bool
unfolding matches times word
is_sha256_digest s = matches (seq (word "sha256:") (times 64 hex)) s

-- ^[a-zA-Z0-9.+:~_-]{1,100}$
unfoldable pub is_runtime_version : String → Bool
unfolding matches up_to
is_runtime_version s =
    let c = one_of (
      (b'a', b'z')
      ∷ (b'A', b'Z')
      ∷ (b'0', b'9')
      ∷ (b'.', b'.')
      ∷ (b'+', b'+')
      ∷ (b':', b':')
      ∷ (b'~', b'~')
      ∷ (b'_', b'_')
      ∷ (b'-', b'-')
      ∷ []) in
    matches (seq c (up_to 99 c)) s

-- ^[123456789ABCDEFGHJKLMNPQRSTUVWXYZabcdefghijkmnopqrstuvwxyz]{26,40}$
unfoldable pub is_dash_address : String → Bool
unfolding matches times up_to
is_dash_address s =
    let c = one_of (
      (b'1', b'9')
      ∷ (b'A', b'H')
      ∷ (b'J', b'N')
      ∷ (b'P', b'Z')
      ∷ (b'a', b'k')
      ∷ (b'm', b'z')
      ∷ []) in
    matches (seq (times 26 c) (up_to 14 c)) s

-- ^ephemeral[0-9]+$
unfoldable pub is_ephemeral_device : String → Bool
unfolding matches plus word
is_ephemeral_device s = matches (seq (word "ephemeral") (plus digit)) s

region_ok : is_region "us-west-2" ≡ true
unfolding is_region
region_ok = refl

region_short : is_region "us-2" ≡ false
unfolding is_region
region_short = refl

resource_ok : is_resource_id "subnet-0123456789abcdef0" ≡ true
unfolding is_resource_id
resource_ok = refl

instance_ok : is_instance_type "t3.medium" ≡ true
unfolding is_instance_type
instance_ok = refl

slug_ok : is_slug "devnet-alpha" ≡ true
unfolding is_slug
slug_ok = refl

table_ok : is_table_name "dash.networks" ≡ true
unfolding is_table_name
table_ok = refl
