-- ===== src/Planner/Tests.antt =====
-- A plan to upgrade Tenderdash, computed.
use dash_network_go.Common.{String, false, [], ◌∷◌, ◌≡◌, refl, ◌⊎◌, ◌==◌}
use dash_network_go.Common.Result.{ok}
use dash_network_go.Planner.Selection.{IsSelection, build_operation-IsSelection}
use dash_network_go.Planner.Build.{OperationPlan}
use dash_network_go.Lifecycle.Tests.{outside, artifacts, network, lock_of, new_digest}
use dash_network_go.Common.Maps.{lookup, insert, lookup_or, contains}
use dash_network_go.Common.Regex.{matches_codes, matches, literal, word, times, up_to, plus}
use dash_network_go.Common.Text.{
  contains_any, has_tag, split_on, has_prefix, trim_prefix, has_prefix_folded, decimal, decimal3,
  before, sort_insert, sort_by, parse_ipv4, is_private, is_global_unicast,
}
use dash_network_go.Spec.Types.{role_components, image_components, distinct, architectures}
use dash_network_go.Spec.Patterns.{
  is_slug, is_account, is_region, is_instance_type, is_resource_id, is_table_name, is_ipam_pool_id,
  is_hex64, is_hex40, is_hex96, is_sha256_digest, is_runtime_version, is_dash_address,
  is_ephemeral_device,
}
use dash_network_go.Spec.Validate.{valid_id, zero_ami, validate_provision, validate}
use dash_network_go.Provision.Plan.{
  ami_of, target_of, expand_group, expand, build, token, key, int_text, tags, same_lists, same_maps,
  same_text, same_network, same_plan, check_roots, validate_plan,
}
use dash_network_go.Release.Lock.{
  changes_digest, check_pin, check_platform, check_platforms, check_image, check_images,
  validate_lock, resolve,
}
use dash_network_go.Planner.Build.{
  selected_in, selected_images, is_target, selected_groups, preserve_of, described, check_operation,
  identified, build_operation,
}

abbrev operation_plan : OperationPlan
unfolding described lock_of
operation_plan =
    record (described outside artifacts (λ p. "digest") network (lock_of new_digest) "upgrade"
      "tenderdash" ("tenderdash" ∷ [])) { id = "plan-digest" }

planned :
    build_operation outside artifacts
      (λ p. "digest")
      network
      (lock_of new_digest)
      "upgrade"
      "tenderdash"
    ≡ ok operation_plan
unfolding lookup insert lookup_or contains matches_codes matches literal word times up_to plus
    contains_any has_tag split_on has_prefix trim_prefix has_prefix_folded decimal decimal3 before
    sort_insert sort_by parse_ipv4 is_private is_global_unicast role_components image_components
    distinct architectures is_slug is_account is_region is_instance_type is_resource_id
    is_table_name is_ipam_pool_id is_hex64 is_hex40 is_hex96 is_sha256_digest is_runtime_version
    is_dash_address is_ephemeral_device valid_id zero_ami validate_provision validate ami_of
    target_of expand_group expand build token key int_text tags same_lists same_maps same_text
    same_network same_plan check_roots validate_plan changes_digest check_pin check_platform
    check_platforms check_image check_images validate_lock resolve selected_in selected_images
    is_target selected_groups preserve_of described check_operation identified build_operation
    lock_of
planned = refl

build_operation-IsSelection_example :
    ((("upgrade" == "create") ≡ false)
      ⊎ ((network.chain.chain_type ≡ "devnet") × (◌≡◌ {A = String} "tenderdash" "all")))
    × IsSelection "upgrade" "tenderdash" network operation_plan
build_operation-IsSelection_example =
    build_operation-IsSelection outside artifacts (λ p. "digest") network (lock_of new_digest)
      "upgrade" "tenderdash" operation_plan planned
