-- ===== src/Journal/Tests/Runs.antt =====
-- An acquisition and a save in the memory, computed, and what the theorems say of them.
use mathlib.Core.Path.{subst}
use dash_network_go.Common.{
  arith, String, true, none, List, [], ◌∷◌, ◌≡◌, ◌≢◌, refl, ap, eq_iff, ◌==◌,
}
use dash_network_go.Common.Result.{Result, ok}
use dash_network_go.Provision.Types.{Record}
use dash_network_go.Provision.Tests.{outside, plan, empty}
use dash_network_go.Journal.Codec.{Json}
use dash_network_go.Journal.Tests.Service.{Rows, memory-IsFaithful, stored_lem}
use dash_network_go.Journal.Lock.{Steps, IsHeld, Grows}
use dash_network_go.Journal.Exclusion
use dash_network_go.Journal.Exclusion.{
  Op, after, after_all, after-Steps, after_all-IsHeld, after_all-Grows,
}
use dash_network_go.Journal.Saves.{IsSaved, save-IsSaved}
use dash_network_go.Journal.Claims.{IsClaimed, acquire-IsClaimed}
use dash_network_go.Journal.Refusals.{save-refused, acquire-refused}
use dash_network_go.Journal.Roundtrip.{IsCodec, read-save}
use dash_network_go.Common.Maps.{lookup, insert, lookup_or, contains}
use dash_network_go.Common.Regex.{matches_codes, matches, literal, word, times, up_to, plus}
use dash_network_go.Common.Text.{
  contains_any, has_tag, has_prefix, has_prefix_folded, decimal, decimal3, before, sort_insert,
  sort_by, parse_ipv4, is_private, is_global_unicast,
}
use dash_network_go.Provision.Compute.{
  new_record, usable_quad, valid_ipv4, public_ipv4, ipam_pool, check_address, validate_address,
  check_node_phase, check_node, validate_compute, validate_address_cleanup,
}
use dash_network_go.Provision.Plan.{
  ami_of, target_of, expand_group, expand, build, token, tags, same_lists, same_text, same_network,
  same_plan, check_roots, validate_plan,
}
use dash_network_go.Provision.Progress.{
  validate_bootstrap, validate_sidecars, check_deployment, validate_deployment, validate_join,
}
use dash_network_go.Provision.Types.{node_of}
use dash_network_go.Provision.Upgrade.{
  image_at, find_target, validate_images, validate_upgrade, validate_record,
}
use dash_network_go.Spec.Patterns.{
  is_slug, is_account, is_region, is_instance_type, is_resource_id, is_table_name, is_ipam_pool_id,
  is_hex64, is_hex40, is_hex96, is_sha256_digest, is_runtime_version, is_dash_address,
  is_ephemeral_device,
}
use dash_network_go.Spec.Types.{role_components, image_components, distinct, architectures}
use dash_network_go.Spec.Validate.{valid_id, zero_ami, validate_provision, validate}
use dash_network_go.Common.Result.{api_code}
use dash_network_go.Common.Stateful.{pure, raise, lift, attempt, ◌>>=◌}
use dash_network_go.Provision.Plan.{key}
use dash_network_go.Journal.Table.{
  same_value, text_of, value, has_value, attribute, is_missing, holds, set_all, erase, erase_all,
  base, changed,
}
use dash_network_go.Journal.Codec.{check_size, encode, has_revision, decode_record, decode_item}
use dash_network_go.Journal.Dynamo.{
  key_of, is_conditional, unless_conditional, create_request, claim_request, save_request,
  claimed_item, found_item, claim_reply, claim, update_reply, save_data, read_item, read,
  acquire_existing, create_reply, acquire, save,
}
use dash_network_go.Journal.Tests.Service.{own, row, store, answer, memory}

-- the record of the first save
abbrev first : Record
first = record empty { revision = 1 }

-- a codec for the two records of the run
abbrev json : Json
json = record {
  marshal = λ r. ok "{}";
  history = λ r. ok "[]";
  decode = λ d. ok first;
  at_end = λ d. true;
  fields = λ d. ok [];
  quote = λ k. k;
}

same_texts : {d : String} → ◌≡◌ {A = Result String} (ok "{}") (ok d) → d ≡ "{}"
same_texts h = cc

json-IsCodec : IsCodec json first
json-IsCodec = record {
  reads_back = λ d h. refl;
  ends = λ d h. refl;
  nonempty = λ d h. ap (λ t. t == "") (same_texts h);
}

abbrev no_rows : Rows
no_rows t n = none

abbrev rows : Rows
rows = (acquire memory "dash.networks" outside json 1 plan "a" no_rows).1

acquired : (acquire memory "dash.networks" outside json 1 plan "a" no_rows).0 ≡ ok empty
unfolding lookup insert lookup_or contains matches_codes matches literal word times up_to plus
    contains_any has_tag has_prefix has_prefix_folded decimal decimal3 before sort_insert sort_by
    parse_ipv4 is_private is_global_unicast new_record usable_quad valid_ipv4 public_ipv4 ipam_pool
    check_address validate_address check_node_phase check_node validate_compute
    validate_address_cleanup ami_of target_of expand_group expand build token tags same_lists
    same_text same_network same_plan check_roots validate_plan validate_bootstrap validate_sidecars
    check_deployment validate_deployment validate_join node_of image_at find_target validate_images
    validate_upgrade validate_record is_slug is_account is_region is_instance_type is_resource_id
    is_table_name is_ipam_pool_id is_hex64 is_hex40 is_hex96 is_sha256_digest is_runtime_version
    is_dash_address is_ephemeral_device role_components image_components distinct architectures
    valid_id zero_ami validate_provision validate api_code pure raise lift attempt ◌>>=◌ key
    same_value text_of value has_value attribute is_missing holds set_all erase erase_all base
    changed check_size encode has_revision decode_record decode_item key_of is_conditional
    unless_conditional create_request claim_request save_request claimed_item found_item claim_reply
    claim update_reply save_data read_item read acquire_existing create_reply acquire save own row
    store answer memory
acquired = refl

saved : (save memory "dash.networks" outside json first "a" rows).0 ≡ ok tt
unfolding lookup insert lookup_or contains matches_codes matches literal word times up_to plus
    contains_any has_tag has_prefix has_prefix_folded decimal decimal3 before sort_insert sort_by
    parse_ipv4 is_private is_global_unicast new_record usable_quad valid_ipv4 public_ipv4 ipam_pool
    check_address validate_address check_node_phase check_node validate_compute
    validate_address_cleanup ami_of target_of expand_group expand build token tags same_lists
    same_text same_network same_plan check_roots validate_plan validate_bootstrap validate_sidecars
    check_deployment validate_deployment validate_join node_of image_at find_target validate_images
    validate_upgrade validate_record is_slug is_account is_region is_instance_type is_resource_id
    is_table_name is_ipam_pool_id is_hex64 is_hex40 is_hex96 is_sha256_digest is_runtime_version
    is_dash_address is_ephemeral_device role_components image_components distinct architectures
    valid_id zero_ami validate_provision validate api_code pure raise lift attempt ◌>>=◌ key
    same_value text_of value has_value attribute is_missing holds set_all erase erase_all base
    changed check_size encode has_revision decode_record decode_item key_of is_conditional
    unless_conditional create_request claim_request save_request claimed_item found_item claim_reply
    claim update_reply save_data read_item read acquire_existing create_reply acquire save own row
    store answer memory
saved = refl

held : IsHeld "a" (memory-IsFaithful.stored rows "dash.networks" (key plan))
unfolding lookup insert lookup_or contains matches_codes matches literal word times up_to plus
    contains_any has_tag has_prefix has_prefix_folded decimal decimal3 before sort_insert sort_by
    parse_ipv4 is_private is_global_unicast new_record usable_quad valid_ipv4 public_ipv4 ipam_pool
    check_address validate_address check_node_phase check_node validate_compute
    validate_address_cleanup ami_of target_of expand_group expand build token tags same_lists
    same_text same_network same_plan check_roots validate_plan validate_bootstrap validate_sidecars
    check_deployment validate_deployment validate_join node_of image_at find_target validate_images
    validate_upgrade validate_record is_slug is_account is_region is_instance_type is_resource_id
    is_table_name is_ipam_pool_id is_hex64 is_hex40 is_hex96 is_sha256_digest is_runtime_version
    is_dash_address is_ephemeral_device role_components image_components distinct architectures
    valid_id zero_ami validate_provision validate api_code pure raise lift attempt ◌>>=◌ key
    same_value text_of value has_value attribute is_missing holds set_all erase erase_all base
    changed check_size encode has_revision decode_record decode_item key_of is_conditional
    unless_conditional create_request claim_request save_request claimed_item found_item claim_reply
    claim update_reply save_data read_item read acquire_existing create_reply acquire save own row
    store answer memory
held =
    subst (λ (stored : Rows → Rows). IsHeld "a" (stored rows "dash.networks" (key plan))) stored_lem
      refl

abbrev attempts : List Op
attempts = Exclusion.acquire 2 plan "b" ∷ Exclusion.save first "b" ∷ Exclusion.release plan "b" ∷ []

different : ◌≢◌ {A = String} "b" "a"
different h = ground (arith, eq_iff "b" "a")

after-Path_example : Steps "a" (memory-IsFaithful.stored no_rows "dash.networks" (key plan)) (
    memory-IsFaithful.stored
      (after memory "dash.networks" outside json (Exclusion.acquire 1 plan "a") no_rows)
      "dash.networks"
      (key plan))
after-Path_example =
    after-Steps memory-IsFaithful "dash.networks" outside json (Exclusion.acquire 1 plan "a")
      no_rows "dash.networks" (key plan)

after_all-IsHeld_example :
    memory-IsFaithful.stored
      (after_all memory "dash.networks" outside json attempts rows)
      "dash.networks"
      (key plan)
    ≡ memory-IsFaithful.stored rows "dash.networks" (key plan)
after_all-IsHeld_example =
    after_all-IsHeld memory-IsFaithful "dash.networks" outside json "a" attempts rows
      "dash.networks" (key plan) held (different, (different, (different, tt)))

after_all-Grows_example : Grows (memory-IsFaithful.stored rows "dash.networks" (key plan)) (
    memory-IsFaithful.stored
      (after_all memory "dash.networks" outside json attempts rows)
      "dash.networks"
      (key plan))
after_all-Grows_example =
    after_all-Grows memory-IsFaithful "dash.networks" outside json attempts rows "dash.networks"
      (key plan)

acquire-IsClaimed_example :
    IsClaimed plan "a"
      (memory-IsFaithful.stored no_rows "dash.networks" (key plan))
      (memory-IsFaithful.stored rows "dash.networks" (key plan))
acquire-IsClaimed_example =
    acquire-IsClaimed memory-IsFaithful "dash.networks" plan "a" outside json 1 no_rows acquired

save-IsSaved_example :
    (d : String) × (encode json outside first ≡ ok d)
    × IsSaved first.plan "a" first.revision d
        (memory-IsFaithful.stored rows "dash.networks" (key first.plan))
        (memory-IsFaithful.stored
          (save memory "dash.networks" outside json first "a" rows).1
          "dash.networks"
          (key first.plan))
save-IsSaved_example =
    save-IsSaved memory-IsFaithful "dash.networks" outside json first "a" rows saved

abbrev final : Rows
final = (save memory "dash.networks" outside json first "a" rows).1

got :
    (memory.get_item "dash.networks" (key_of first.plan) final).0
    ≡ ok (memory-IsFaithful.stored final "dash.networks" (key first.plan))
unfolding memory key_of value text_of lookup
got = ap (λ (stored : Rows → Rows). ok (stored final "dash.networks" (key first.plan))) stored_lem

read-save_example : (read memory "dash.networks" outside json first.plan final).0 ≡ ok (first, "a")
read-save_example =
    read-save memory-IsFaithful "dash.networks" outside json first "a" rows _ json-IsCodec saved got

first-IsHeld : IsHeld "a" (memory-IsFaithful.stored rows "dash.networks" (key first.plan))
unfolding lookup insert lookup_or contains matches_codes matches literal word times up_to plus
    contains_any has_tag has_prefix has_prefix_folded decimal decimal3 before sort_insert sort_by
    parse_ipv4 is_private is_global_unicast new_record usable_quad valid_ipv4 public_ipv4 ipam_pool
    check_address validate_address check_node_phase check_node validate_compute
    validate_address_cleanup ami_of target_of expand_group expand build token tags same_lists
    same_text same_network same_plan check_roots validate_plan validate_bootstrap validate_sidecars
    check_deployment validate_deployment validate_join node_of image_at find_target validate_images
    validate_upgrade validate_record is_slug is_account is_region is_instance_type is_resource_id
    is_table_name is_ipam_pool_id is_hex64 is_hex40 is_hex96 is_sha256_digest is_runtime_version
    is_dash_address is_ephemeral_device role_components image_components distinct architectures
    valid_id zero_ami validate_provision validate api_code pure raise lift attempt ◌>>=◌ key
    same_value text_of value has_value attribute is_missing holds set_all erase erase_all base
    changed check_size encode has_revision decode_record decode_item key_of is_conditional
    unless_conditional create_request claim_request save_request claimed_item found_item claim_reply
    claim update_reply save_data read_item read acquire_existing create_reply acquire save own row
    store answer memory
first-IsHeld =
    subst (λ (stored : Rows → Rows). IsHeld "a" (stored rows "dash.networks" (key first.plan)))
      stored_lem refl

save-refused_example :
    ((save memory "dash.networks" outside json first "b" rows).0 ≢ ok tt)
    × (memory-IsFaithful.stored
          (save memory "dash.networks" outside json first "b" rows).1
          "dash.networks"
          (key first.plan)
        ≡ memory-IsFaithful.stored rows "dash.networks" (key first.plan))
save-refused_example =
    save-refused memory-IsFaithful "dash.networks" outside json first "b" "a" rows first-IsHeld
      different

acquire-refused_example :
    ((acquire memory "dash.networks" outside json 2 plan "b" rows).0 ≢ ok first)
    × (memory-IsFaithful.stored
          (acquire memory "dash.networks" outside json 2 plan "b" rows).1
          "dash.networks"
          (key plan)
        ≡ memory-IsFaithful.stored rows "dash.networks" (key plan))
acquire-refused_example =
    acquire-refused memory-IsFaithful "dash.networks" outside json 2 plan "b" "a" rows first held
      different
