-- ===== src/Tests/Presence.antt =====
-- Connections that come, go and move.
use im_system.Common.{◌≡◌, refl, arith, bytes, some, none, pos, length, true}
use im_system.Common.Dict.{lookup, insert, erase}
use im_system.Router.{publish_forward}
use im_system.Ws.State.{ClientRef, Server, with_store}
use im_system.Ws.Manager.{register, unregister, get_client_by_user_id, online_key}
use im_system.Ws.Manager.Presence.{shown}
use im_system.Ws.Manager.Replaced.{reconnect_overcounts, moved_user_forgotten}
use im_system.Ws.Manager.Steps.{
  register_map, register_rest, unregister_map, unregister_rest, late_del_hides,
}
use im_system.Ws.Manager.Visit.{
  visit_undisturbed, more, nothing, enters, is_shown, leaves, is_hidden,
}
use im_system.Ws.System.{started}
use im_system.Tests.Fixture.{demo, demo-IsLawful, store}

abbrev phone : ClientRef
phone = record { address = 10; user_id = 1 }

abbrev laptop : ClientRef
laptop = record { address = 11; user_id = 1 }

abbrev node_a : Server demo
node_a = started store (bytes "a:1") publish_forward

abbrev node_b : Server demo
node_b = started store (bytes "b:2") publish_forward

abbrev on_phone : Server demo
on_phone = register phone node_a

phone_current : get_client_by_user_id 1 on_phone ≡ some phone
unfolding register get_client_by_user_id lookup insert
phone_current = refl

reconnect_overcounts_example :
    ((unregister laptop (unregister phone (register laptop on_phone))).metrics.online_users ≡ pos 1)
    × (length (unregister laptop (unregister phone (register laptop on_phone))).clients ≡ 0)
unfolding lookup
reconnect_overcounts_example =
    reconnect_overcounts phone laptop node_a 0 refl (omega arith) refl refl

moved_user_forgotten_example :
    (get_client_by_user_id 1 (register laptop node_b) ≡ some laptop)
    × (shown (register laptop node_b) (online_key 1) ≡ some (bytes "b:2", 90))
    × (shown (unregister phone (with_store on_phone (register laptop node_b).store)) (online_key 1)
        ≡ none)
unfolding register lookup insert
moved_user_forgotten_example =
    moved_user_forgotten demo-IsLawful.cache phone laptop on_phone node_b refl (refl, tt)
      phone_current refl refl

abbrev tablet : ClientRef
tablet = record { address = 20; user_id = 2 }

-- The steps of two visits that overlap.
abbrev both_in : Server demo
both_in = register_map tablet (register_map phone node_a)

abbrev both_shown : Server demo
both_shown = register_rest tablet (register_rest phone both_in)

abbrev both_out : Server demo
both_out = (unregister_map tablet (unregister_map phone both_shown).1).1

abbrev both_hidden : Server demo
both_hidden = unregister_rest tablet (unregister_rest phone both_out)

visit_undisturbed_example :
    (get_client_by_user_id 1 both_shown ≡ some phone)
    × (shown both_shown (online_key 1) ≡ some (bytes "a:1", 90))
    × ((unregister_map phone both_shown).0 ≡ true)
    × (get_client_by_user_id 1 both_hidden ≡ none)
    × (shown both_hidden (online_key 1) ≡ none)
visit_undisturbed_example =
    visit_undisturbed demo-IsLawful.cache phone node_a both_in both_shown both_out both_hidden tt
      (more nothing (enters tablet (omega arith))) refl
      (more nothing (is_shown tablet (omega arith) refl))
      (more nothing (leaves tablet (omega arith))) refl
      (more nothing (is_hidden tablet (omega arith) refl))

late_del_hides_example :
    ((unregister_map phone on_phone).0 ≡ true)
    × (get_client_by_user_id 1
          (unregister_rest phone (register laptop (unregister_map phone on_phone).1))
        ≡ some laptop)
    × (shown
          (unregister_rest phone (register laptop (unregister_map phone on_phone).1))
          (online_key 1)
        ≡ none)
unfolding register unregister_map lookup insert erase
late_del_hides_example =
    late_del_hides demo-IsLawful.cache phone laptop on_phone refl phone_current refl refl
