-- ===== src/Provision/Tests/Runs.antt =====
-- The runs of the tests, computed to their results, and what the theorems on them then say.
use dash_network_go.Common.{true, false, none, All, some, [], ◌∷◌, ◌≡◌, refl}
use dash_network_go.Common.Result.{ok}
use dash_network_go.Spec.Types.{Provision}
use dash_network_go.Provision.Discovery.Originals.{IsOriginal}
use dash_network_go.Common.Int.{pos}
use dash_network_go.Provision.Cloud.{Image}
use dash_network_go.Provision.Disks.{roots_in, IsAllowed, validate_image_disks-ok}
use dash_network_go.Provision.Preflight.{check_mappings}
use dash_network_go.Provision.Preflight.{one_root}
use dash_network_go.Common.{contains}
use dash_network_go.Spec.Patterns.{is_ephemeral_device}
use dash_network_go.Common.Regex.{matches, matches_codes, literal, word, plus}
use dash_network_go.Provision.Adoption.{discover-AreOriginal}
use dash_network_go.Provision.Exits.{
  IsReleasedAfter, IsSavedIn, IsRetired, execute-IsReady, release_addresses-IsRetired,
}
use dash_network_go.Provision.Tests.{
  outside, plan, serve, serve_cleanup, launched, fresh, half_launched, launched_first, instance_of,
}
use dash_network_go.Common.Result.{api_code}
use dash_network_go.Common.Text.{contains_any, has_tag}
use dash_network_go.Provision.Addresses.{read_addresses}
use dash_network_go.Provision.Compute.{validate_address_cleanup}
use dash_network_go.Provision.Discovery.{accept_reservations}
use dash_network_go.Provision.Ec2.{
  reply, check_cancelled, save_journal, put_node, config, read_page, discover_pages, discover,
  one_identity, launch, launch_target, launch_targets, state_text, reconcile_target, reconcile,
}
use dash_network_go.Provision.Effects.{lift, ask, or_raise, attempt, get, put, ◌>>=◌}
use dash_network_go.Provision.Execute.{
  is_ok, cleanup_began, is_running, released, recover, deferring, ready_addresses, mark_ready,
  poll_round, wait_then, poll, check_live, begin, claimed, execute,
}
use dash_network_go.Provision.Ipam.{
  is_pool_of, check_pool_list, check_pools, verify_pool, intent, visible, associated_now,
  discover_addresses, check_interface, check_interfaces, save_address, check_intent, allocated,
  allocate_missing, find_or_allocate, adopt, attach, finish, ensure_address, ensure_each,
  ensure_addresses,
}
use dash_network_go.Provision.Plan.{build}
use dash_network_go.Provision.Preflight.{
  verify_account, validate_image_disks, the_one, all_groups, is_image_of, check_images, supports,
  check_type, check_types, check_public, subnet_matches, check_scope, require_footprint,
  footprint_of, prepare,
}
use dash_network_go.Provision.Progress.{validate_bootstrap, validate_deployment, validate_join}
use dash_network_go.Provision.Release.{
  has_code, absent, verify_address_released, has_instances, purged_reply, purged_result,
  verify_instance_purged, instance_ids, read_instances, read_reservations, read_fleet, skip_live,
  verify_purged, is_terminated, check_terminated, check_fleet, forget, forget_node, validation_copy,
  check_release, check_releases, release_failure, identified, mark_released, release_one,
  release_address_of, release_target, release_targets, check_cleanup, retire, cleanup,
  may_mark_cleanup, release_addresses,
}
use dash_network_go.Provision.Upgrade.{validate_upgrade, validate_record}
use dash_network_go.Spec.Patterns.{
  is_slug, is_account, is_region, is_instance_type, is_table_name, is_ipam_pool_id,
}
use dash_network_go.Spec.Types.{image_components}
use dash_network_go.Spec.Validate.{valid_id}

executed : (execute outside plan "runner" "v1" 3 true 3 serve fresh).0 ≡ ok tt
unfolding contains_any has_tag read_addresses accept_reservations reply check_cancelled save_journal
    put_node config read_page discover_pages discover one_identity launch launch_target
    launch_targets state_text reconcile_target reconcile lift ask or_raise attempt get put ◌>>=◌
    cleanup_began is_running released recover deferring ready_addresses mark_ready poll_round
    wait_then poll check_live begin claimed execute is_pool_of check_pool_list check_pools
    verify_pool intent visible associated_now discover_addresses check_interface check_interfaces
    save_address check_intent allocated allocate_missing find_or_allocate adopt attach finish
    ensure_address ensure_each ensure_addresses build verify_account validate_image_disks the_one
    all_groups is_image_of check_images supports check_type check_types check_public subnet_matches
    check_scope require_footprint footprint_of prepare validate_bootstrap validate_deployment
    validate_join may_mark_cleanup validate_upgrade validate_record is_slug is_account is_region
    is_instance_type is_table_name is_ipam_pool_id image_components valid_id serve
executed = refl

retired_ok : (release_addresses outside plan "runner" serve_cleanup fresh).0 ≡ ok tt
unfolding contains_any has_tag read_addresses accept_reservations reply check_cancelled save_journal
    put_node config read_page discover_pages discover one_identity launch launch_target
    launch_targets state_text reconcile_target reconcile lift ask or_raise attempt get put ◌>>=◌
    cleanup_began is_running released recover deferring ready_addresses mark_ready poll_round
    wait_then poll check_live begin claimed execute is_pool_of check_pool_list check_pools
    verify_pool intent visible associated_now discover_addresses check_interface check_interfaces
    save_address check_intent allocated allocate_missing find_or_allocate adopt attach finish
    ensure_address ensure_each ensure_addresses build verify_account validate_image_disks the_one
    all_groups is_image_of check_images supports check_type check_types check_public subnet_matches
    check_scope require_footprint footprint_of prepare validate_bootstrap validate_deployment
    validate_join may_mark_cleanup validate_upgrade validate_record is_slug is_account is_region
    is_instance_type is_table_name is_ipam_pool_id image_components valid_id serve has_code absent
    verify_address_released has_instances purged_reply purged_result verify_instance_purged
    instance_ids read_instances read_reservations read_fleet skip_live verify_purged is_terminated
    check_terminated check_fleet forget forget_node validation_copy check_release check_releases
    release_failure identified mark_released release_one release_address_of release_target
    release_targets check_cleanup retire cleanup release_addresses serve_cleanup launched
    validate_address_cleanup api_code is_ok
retired_ok = refl

execute-IsReady_example :
    IsReleasedAfter
      (IsSavedIn "runner" "compute-ready")
      "runner"
      serve
      (execute outside plan "runner" "v1" 3 true 3 serve fresh).1
execute-IsReady_example = execute-IsReady outside plan "runner" "v1" 3 3 true serve fresh executed

release_addresses-IsRetired_example :
    IsReleasedAfter
      (IsRetired "runner")
      "runner"
      serve_cleanup
      (release_addresses outside plan "runner" serve_cleanup fresh).1
release_addresses-IsRetired_example =
    release_addresses-IsRetired outside plan "runner" serve_cleanup fresh retired_ok

found :
    (discover outside plan 3 serve half_launched).0
    ≡ ok (("hp-001", instance_of launched_first) ∷ [])
unfolding contains_any has_tag read_addresses accept_reservations reply check_cancelled save_journal
    put_node config read_page discover_pages discover one_identity launch launch_target
    launch_targets state_text reconcile_target reconcile lift ask or_raise attempt get put ◌>>=◌
    cleanup_began is_running released recover deferring ready_addresses mark_ready poll_round
    wait_then poll check_live begin claimed execute is_pool_of check_pool_list check_pools
    verify_pool intent visible associated_now discover_addresses check_interface check_interfaces
    save_address check_intent allocated allocate_missing find_or_allocate adopt attach finish
    ensure_address ensure_each ensure_addresses build verify_account validate_image_disks the_one
    all_groups is_image_of check_images supports check_type check_types check_public subnet_matches
    check_scope require_footprint footprint_of prepare validate_bootstrap validate_deployment
    validate_join may_mark_cleanup validate_upgrade validate_record is_slug is_account is_region
    is_instance_type is_table_name is_ipam_pool_id image_components valid_id serve instance_of
found = refl

discover-AreOriginal_example :
    (c : Provision) × (plan.network.aws.provision ≡ some c)
    × All (IsOriginal outside plan c) (("hp-001", instance_of launched_first) ∷ [])
discover-AreOriginal_example = discover-AreOriginal outside plan 3 serve half_launched _ found

abbrev ubuntu : Image
ubuntu = record {
  id = "ami-00000001";
  owner_id = "099720109477";
  architecture = "arm64";
  state = "available";
  root_device_type = "ebs";
  virtualization_type = "hvm";
  platform = "";
  product_codes = [];
  root_device_name = "/dev/sda1";
  mappings =
      record {
        device_name = "/dev/sda1";
        virtual_name = "";
        no_device = false;
        ebs_size = some (pos 8);
      }
      ∷ record {
        device_name = "/dev/sdb";
        virtual_name = "ephemeral0";
        no_device = false;
        ebs_size = none;
      }
      ∷ [];
}

disks_ok : validate_image_disks ubuntu (pos 100) ≡ ok tt
unfolding validate_image_disks check_mappings one_root contains is_ephemeral_device matches
    matches_codes literal word plus
disks_ok = refl

validate_image_disks-ok_example :
    (roots_in ubuntu.root_device_name ubuntu.mappings ≡ 1)
    × All (IsAllowed ubuntu.root_device_name (pos 100)) ubuntu.mappings
validate_image_disks-ok_example = validate_image_disks-ok ubuntu (pos 100) disks_ok
