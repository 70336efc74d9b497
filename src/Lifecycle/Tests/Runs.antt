-- ===== src/Lifecycle/Tests/Runs.antt =====
-- The deployment plan of that devnet and its upgrades, computed.
use dash_network_go.Common.{◌≤◌, Map, length, All, String, some, [], ◌≡◌, refl, ◌⊎◌}
use dash_network_go.Common.Result.{ok}
use dash_network_go.Release.Pinned.{AreNewComponents, IsPinned, validate_lock-IsPinned}
use dash_network_go.Lifecycle.Fleet.{role_count, AreNewIds, validate_deployment_plan-IsFleet}
use dash_network_go.Lifecycle.Binding.{IsBound, build_deployment-IsBound}
use dash_network_go.Lifecycle.Journaled.{MayPlan, IsJournaled, plan_deployment-IsJournaled}
use dash_network_go.Lifecycle.Deployment.{Live}
use dash_network_go.Lifecycle.Scope.{IsPinFor, upgrade_targets-IsPinFor}
use dash_network_go.Lifecycle.Tests.{
  outside, artifacts, recipes, network, lock_of, compute, prepared, deployment, deployed, upgraded,
  core_upgraded, new_digest, live, options, ready, flags,
}
use dash_network_go.Bootstrap.Plan as Prepared
use dash_network_go.Common.Maps.{lookup, insert, lookup_or, contains}
use dash_network_go.Common.Regex.{matches_codes, matches, literal, word, times, up_to, plus}
use dash_network_go.Common.Text.{
  contains_any, has_tag, split_on, has_prefix, trim_prefix, has_prefix_folded, decimal, decimal3,
  before, sort_insert, sort_by, parse_ipv4, is_private, is_global_unicast,
}
use dash_network_go.Spec.Types.{role_components, image_components, distinct, architectures}
use dash_network_go.Spec.Patterns.{
  is_slug, is_account, is_region, is_instance_type, is_resource_id, is_table_name, is_ipam_pool_id,
  is_hex64, is_hex40, is_hex96, is_sha256_digest, is_runtime_version, is_dash_address,
  is_ephemeral_device,
}
use dash_network_go.Spec.Validate.{valid_id, zero_ami, validate_provision, validate}
use dash_network_go.Provision.Plan.{
  ami_of, target_of, expand_group, expand, build, token, key, int_text, tags, same_lists, same_maps,
  same_text, same_network, same_plan, check_roots, validate_plan,
}
use dash_network_go.Provision.Compute.{
  new_record, usable_quad, valid_ipv4, public_ipv4, ipam_pool, check_address, validate_address,
  check_node_phase, check_node, validate_compute, validate_address_cleanup,
}
use dash_network_go.Provision.Types.{node_of}
use dash_network_go.Provision.Progress.{
  validate_bootstrap, validate_sidecars, check_deployment, validate_deployment, validate_join,
}
use dash_network_go.Provision.Upgrade.{
  image_at, find_target, validate_images, validate_upgrade, validate_record,
}
use dash_network_go.Release.Lock.{
  changes_digest, check_pin, check_platform, check_platforms, check_image, check_images,
  validate_lock, resolve,
}
use dash_network_go.Bootstrap.Plan.{
  is_username, same_image, same_bootstrap, platform_pin, is_needed, target_for, check_access,
  validate_bootstrap_plan,
}
use dash_network_go.Lifecycle.Nodes.{
  is_instance_id, is_node_name, to_ipv4, is_usable, validate_node, advertised, is_email,
  validate_tls,
}
use dash_network_go.Lifecycle.Deployment.{
  chain_name, gateway_tls_of, count_of, see, is_approved, is_deployed_role, check_target,
  check_targets, check_counts, check_identity, check_policy, check_chain, check_tls,
  validate_deployment_plan,
}
use dash_network_go.Lifecycle.Building.{
  is_journaled_ip, bind_target, bind_targets, or_default, requested_tls, build_public,
  build_deployment, vpc_address, with_role, validators, wallet, miner, peer_addresses,
}
use dash_network_go.Lifecycle.Upgrades.{
  set_pin, fold_result, is_skipped, unchanged_message, repin, repin_core, core_image,
  platform_image, choose, check_candidate, upgrade_targets,
}
use dash_network_go.Lifecycle.Planning.{
  recovery_for, effective_images, validate_upgrade_plan, build_upgrade,
}
use dash_network_go.Lifecycle.Command.{
  ip_of, journaled_ip, collect_ips, ipam_addresses, options_of, hosts_ready, is_deployed, plan_with,
  plan_deployment,
}

planned :
    upgrade_targets outside artifacts recipes deployment network
      (lock_of new_digest)
      deployed
      "tenderdash"
    ≡ ok upgraded
unfolding lookup insert lookup_or contains matches_codes matches literal word times up_to plus
    contains_any has_tag split_on has_prefix trim_prefix has_prefix_folded decimal decimal3 before
    sort_insert sort_by parse_ipv4 is_private is_global_unicast role_components image_components
    distinct architectures is_slug is_account is_region is_instance_type is_resource_id
    is_table_name is_ipam_pool_id is_hex64 is_hex40 is_hex96 is_sha256_digest is_runtime_version
    is_dash_address is_ephemeral_device valid_id zero_ami validate_provision validate ami_of
    target_of expand_group expand build token key int_text tags same_lists same_maps same_text
    same_network same_plan check_roots validate_plan new_record usable_quad valid_ipv4 public_ipv4
    ipam_pool check_address validate_address check_node_phase check_node validate_compute
    validate_address_cleanup node_of validate_bootstrap validate_sidecars check_deployment
    validate_deployment validate_join image_at find_target validate_images validate_upgrade
    validate_record changes_digest check_pin check_platform check_platforms check_image check_images
    validate_lock resolve is_username same_image same_bootstrap platform_pin is_needed target_for
    check_access validate_bootstrap_plan is_instance_id is_node_name to_ipv4 is_usable validate_node
    advertised is_email validate_tls chain_name gateway_tls_of count_of see is_approved
    is_deployed_role check_target check_targets check_counts check_identity check_policy check_chain
    check_tls validate_deployment_plan is_journaled_ip bind_target bind_targets or_default
    requested_tls build_public build_deployment vpc_address with_role validators wallet miner
    peer_addresses set_pin fold_result is_skipped unchanged_message repin repin_core core_image
    platform_image choose check_candidate upgrade_targets recovery_for effective_images
    validate_upgrade_plan build_upgrade ip_of journaled_ip collect_ips ipam_addresses options_of
    hosts_ready is_deployed plan_with plan_deployment Prepared.build lock_of compute prepared
    deployment deployed upgraded live options ready core_upgraded
planned = refl

upgrade_targets-IsPinFor_example :
    (image_at upgraded "hp-001" "tenderdash" ≡ image_at deployed "hp-001" "tenderdash")
    ⊎ IsPinFor outside artifacts "tenderdash"
        (lock_of new_digest).images
        deployment.targets
        "hp-001"
        "tenderdash"
        (image_at upgraded "hp-001" "tenderdash")
upgrade_targets-IsPinFor_example =
    upgrade_targets-IsPinFor outside artifacts recipes deployment network (lock_of new_digest)
      deployed upgraded "tenderdash" planned "hp-001" "tenderdash"

core_planned :
    upgrade_targets outside artifacts recipes deployment network
      (lock_of new_digest)
      deployed
      "core"
    ≡ ok core_upgraded
unfolding lookup insert lookup_or contains matches_codes matches literal word times up_to plus
    contains_any has_tag split_on has_prefix trim_prefix has_prefix_folded decimal decimal3 before
    sort_insert sort_by parse_ipv4 is_private is_global_unicast role_components image_components
    distinct architectures is_slug is_account is_region is_instance_type is_resource_id
    is_table_name is_ipam_pool_id is_hex64 is_hex40 is_hex96 is_sha256_digest is_runtime_version
    is_dash_address is_ephemeral_device valid_id zero_ami validate_provision validate ami_of
    target_of expand_group expand build token key int_text tags same_lists same_maps same_text
    same_network same_plan check_roots validate_plan new_record usable_quad valid_ipv4 public_ipv4
    ipam_pool check_address validate_address check_node_phase check_node validate_compute
    validate_address_cleanup node_of validate_bootstrap validate_sidecars check_deployment
    validate_deployment validate_join image_at find_target validate_images validate_upgrade
    validate_record changes_digest check_pin check_platform check_platforms check_image check_images
    validate_lock resolve is_username same_image same_bootstrap platform_pin is_needed target_for
    check_access validate_bootstrap_plan is_instance_id is_node_name to_ipv4 is_usable validate_node
    advertised is_email validate_tls chain_name gateway_tls_of count_of see is_approved
    is_deployed_role check_target check_targets check_counts check_identity check_policy check_chain
    check_tls validate_deployment_plan is_journaled_ip bind_target bind_targets or_default
    requested_tls build_public build_deployment vpc_address with_role validators wallet miner
    peer_addresses set_pin fold_result is_skipped unchanged_message repin repin_core core_image
    platform_image choose check_candidate upgrade_targets recovery_for effective_images
    validate_upgrade_plan build_upgrade ip_of journaled_ip collect_ips ipam_addresses options_of
    hosts_ready is_deployed plan_with plan_deployment Prepared.build lock_of compute prepared
    deployment deployed upgraded live options ready core_upgraded
core_planned = refl

valid_deployment : validate_deployment_plan outside artifacts recipes deployment ≡ ok tt
unfolding lookup insert lookup_or contains matches_codes matches literal word times up_to plus
    contains_any has_tag split_on has_prefix trim_prefix has_prefix_folded decimal decimal3 before
    sort_insert sort_by parse_ipv4 is_private is_global_unicast role_components image_components
    distinct architectures is_slug is_account is_region is_instance_type is_resource_id
    is_table_name is_ipam_pool_id is_hex64 is_hex40 is_hex96 is_sha256_digest is_runtime_version
    is_dash_address is_ephemeral_device valid_id zero_ami validate_provision validate ami_of
    target_of expand_group expand build token key int_text tags same_lists same_maps same_text
    same_network same_plan check_roots validate_plan new_record usable_quad valid_ipv4 public_ipv4
    ipam_pool check_address validate_address check_node_phase check_node validate_compute
    validate_address_cleanup node_of validate_bootstrap validate_sidecars check_deployment
    validate_deployment validate_join image_at find_target validate_images validate_upgrade
    validate_record changes_digest check_pin check_platform check_platforms check_image check_images
    validate_lock resolve is_username same_image same_bootstrap platform_pin is_needed target_for
    check_access validate_bootstrap_plan is_instance_id is_node_name to_ipv4 is_usable validate_node
    advertised is_email validate_tls chain_name gateway_tls_of count_of see is_approved
    is_deployed_role check_target check_targets check_counts check_identity check_policy check_chain
    check_tls validate_deployment_plan is_journaled_ip bind_target bind_targets or_default
    requested_tls build_public build_deployment vpc_address with_role validators wallet miner
    peer_addresses set_pin fold_result is_skipped unchanged_message repin repin_core core_image
    platform_image choose check_candidate upgrade_targets recovery_for effective_images
    validate_upgrade_plan build_upgrade ip_of journaled_ip collect_ips ipam_addresses options_of
    hosts_ready is_deployed plan_with plan_deployment Prepared.build lock_of compute prepared
    deployment deployed upgraded live options ready core_upgraded
valid_deployment = refl

validate_deployment_plan-IsFleet_example :
    (13 ≤ role_count "validator" deployment.targets)
    × (role_count "validator" deployment.targets ≤ 25)
    × (role_count "wallet" deployment.targets ≡ 1)
    × (role_count "miner" deployment.targets ≤ 1)
    × AreNewIds [] deployment.targets
validate_deployment_plan-IsFleet_example =
    validate_deployment_plan-IsFleet outside artifacts recipes deployment valid_deployment

valid_lock : validate_lock outside artifacts (lock_of new_digest) network ≡ ok tt
unfolding lookup insert lookup_or contains matches_codes matches literal word times up_to plus
    contains_any has_tag split_on has_prefix trim_prefix has_prefix_folded decimal decimal3 before
    sort_insert sort_by parse_ipv4 is_private is_global_unicast role_components image_components
    distinct architectures is_slug is_account is_region is_instance_type is_resource_id
    is_table_name is_ipam_pool_id is_hex64 is_hex40 is_hex96 is_sha256_digest is_runtime_version
    is_dash_address is_ephemeral_device valid_id zero_ami validate_provision validate ami_of
    target_of expand_group expand build token key int_text tags same_lists same_maps same_text
    same_network same_plan check_roots validate_plan new_record usable_quad valid_ipv4 public_ipv4
    ipam_pool check_address validate_address check_node_phase check_node validate_compute
    validate_address_cleanup node_of validate_bootstrap validate_sidecars check_deployment
    validate_deployment validate_join image_at find_target validate_images validate_upgrade
    validate_record changes_digest check_pin check_platform check_platforms check_image check_images
    validate_lock resolve is_username same_image same_bootstrap platform_pin is_needed target_for
    check_access validate_bootstrap_plan is_instance_id is_node_name to_ipv4 is_usable validate_node
    advertised is_email validate_tls chain_name gateway_tls_of count_of see is_approved
    is_deployed_role check_target check_targets check_counts check_identity check_policy check_chain
    check_tls validate_deployment_plan is_journaled_ip bind_target bind_targets or_default
    requested_tls build_public build_deployment vpc_address with_role validators wallet miner
    peer_addresses set_pin fold_result is_skipped unchanged_message repin repin_core core_image
    platform_image choose check_candidate upgrade_targets recovery_for effective_images
    validate_upgrade_plan build_upgrade ip_of journaled_ip collect_ips ipam_addresses options_of
    hosts_ready is_deployed plan_with plan_deployment Prepared.build lock_of compute prepared
    deployment deployed upgraded live options ready core_upgraded
valid_lock = refl

validate_lock-IsPinned_example :
    (length (lock_of new_digest).images ≡ length network.images)
    × AreNewComponents [] (lock_of new_digest).images
    × All (IsPinned outside artifacts network) (lock_of new_digest).images
validate_lock-IsPinned_example =
    validate_lock-IsPinned outside artifacts (lock_of new_digest) network valid_lock

built : build_deployment outside artifacts recipes prepared live options 1 1 ≡ ok deployment
unfolding lookup insert lookup_or contains matches_codes matches literal word times up_to plus
    contains_any has_tag split_on has_prefix trim_prefix has_prefix_folded decimal decimal3 before
    sort_insert sort_by parse_ipv4 is_private is_global_unicast role_components image_components
    distinct architectures is_slug is_account is_region is_instance_type is_resource_id
    is_table_name is_ipam_pool_id is_hex64 is_hex40 is_hex96 is_sha256_digest is_runtime_version
    is_dash_address is_ephemeral_device valid_id zero_ami validate_provision validate ami_of
    target_of expand_group expand build token key int_text tags same_lists same_maps same_text
    same_network same_plan check_roots validate_plan new_record usable_quad valid_ipv4 public_ipv4
    ipam_pool check_address validate_address check_node_phase check_node validate_compute
    validate_address_cleanup node_of validate_bootstrap validate_sidecars check_deployment
    validate_deployment validate_join image_at find_target validate_images validate_upgrade
    validate_record changes_digest check_pin check_platform check_platforms check_image check_images
    validate_lock resolve is_username same_image same_bootstrap platform_pin is_needed target_for
    check_access validate_bootstrap_plan is_instance_id is_node_name to_ipv4 is_usable validate_node
    advertised is_email validate_tls chain_name gateway_tls_of count_of see is_approved
    is_deployed_role check_target check_targets check_counts check_identity check_policy check_chain
    check_tls validate_deployment_plan is_journaled_ip bind_target bind_targets or_default
    requested_tls build_public build_deployment vpc_address with_role validators wallet miner
    peer_addresses set_pin fold_result is_skipped unchanged_message repin repin_core core_image
    platform_image choose check_candidate upgrade_targets recovery_for effective_images
    validate_upgrade_plan build_upgrade ip_of journaled_ip collect_ips ipam_addresses options_of
    hosts_ready is_deployed plan_with plan_deployment Prepared.build lock_of compute prepared
    deployment deployed upgraded live options ready core_upgraded
built = refl

build_deployment-IsBound_example :
    (public_ips : Map String) × (options.public_ips ≡ some public_ips)
    × All (IsBound live public_ips) deployment.targets
build_deployment-IsBound_example =
    build_deployment-IsBound outside artifacts recipes prepared live options 1 1 deployment built

commanded :
    plan_deployment outside artifacts recipes prepared flags ready "" (ok live) 1 ≡ ok deployment
unfolding lookup insert lookup_or contains matches_codes matches literal word times up_to plus
    contains_any has_tag split_on has_prefix trim_prefix has_prefix_folded decimal decimal3 before
    sort_insert sort_by parse_ipv4 is_private is_global_unicast role_components image_components
    distinct architectures is_slug is_account is_region is_instance_type is_resource_id
    is_table_name is_ipam_pool_id is_hex64 is_hex40 is_hex96 is_sha256_digest is_runtime_version
    is_dash_address is_ephemeral_device valid_id zero_ami validate_provision validate ami_of
    target_of expand_group expand build token key int_text tags same_lists same_maps same_text
    same_network same_plan check_roots validate_plan new_record usable_quad valid_ipv4 public_ipv4
    ipam_pool check_address validate_address check_node_phase check_node validate_compute
    validate_address_cleanup node_of validate_bootstrap validate_sidecars check_deployment
    validate_deployment validate_join image_at find_target validate_images validate_upgrade
    validate_record changes_digest check_pin check_platform check_platforms check_image check_images
    validate_lock resolve is_username same_image same_bootstrap platform_pin is_needed target_for
    check_access validate_bootstrap_plan is_instance_id is_node_name to_ipv4 is_usable validate_node
    advertised is_email validate_tls chain_name gateway_tls_of count_of see is_approved
    is_deployed_role check_target check_targets check_counts check_identity check_policy check_chain
    check_tls validate_deployment_plan is_journaled_ip bind_target bind_targets or_default
    requested_tls build_public build_deployment vpc_address with_role validators wallet miner
    peer_addresses set_pin fold_result is_skipped unchanged_message repin repin_core core_image
    platform_image choose check_candidate upgrade_targets recovery_for effective_images
    validate_upgrade_plan build_upgrade ip_of journaled_ip collect_ips ipam_addresses options_of
    hosts_ready is_deployed plan_with plan_deployment Prepared.build lock_of compute prepared
    deployment deployed upgraded live options ready core_upgraded
commanded = refl

plan_deployment-IsJournaled_example :
    MayPlan prepared ready ""
    × ((l : Map Live) × (ok live ≡ ok l) × All (IsJournaled l ready) deployment.targets)
plan_deployment-IsJournaled_example =
    plan_deployment-IsJournaled outside artifacts recipes prepared flags ready "" (ok live) 1
      deployment commanded
