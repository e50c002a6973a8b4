-- ===== src/Examples/Conference.antt =====
-- A moderator at concrete inputs.
use signalwire_node.Common.{
  refl, ℕ, true, false, none, some, List, [], ◌∷◌, String, Bool, differ, Option,
}
use signalwire_node.Common.Json.{Json, ℤ}
use signalwire_node.Webrtc.Devices.{Constraint}
use signalwire_node.Verto.Conference.{Member, Conference, moderator, boot, add}
use signalwire_node.Verto.Conference.Commands.{banner, run_command}
use signalwire_node.Verto.Conference.Overriding.{Runs, run_command-Runs}
use signalwire_node.Verto.Conference.Moderating.{IsModerated, Arrival, arrive, arrive-IsModerated}
use signalwire_node.Examples.Webrtc.{rtc_call}

abbrev member : Member
member = record { call = rtc_call; role = "participant"; chat = none; commands = none }

abbrev conference : Conference
conference = record {
  la_name = "room";
  chat_channel = "chat";
  info_channel = "";
  mod_channel = "mod";
  member_id = 7;
  role = moderator;
}

run_command-Runs_example :
    Runs false "c1" "mod" "vid-banner"
      (Json.num (ℤ.pos 3))
      (Json.str "Ann")
      (run_command (λ text. text) (Constraint.flag true) "c1" "mod" (banner (some 3) "Ann"))
run_command-Runs_example =
    run_command-Runs (λ text. text) (Constraint.flag true) "c1" "mod" (banner (some 3) "Ann")

abbrev two_hundred : String → Option ℕ
two_hundred text = some 200

abbrev all_good : String → Bool
all_good channel = true

abbrev arrivals : List (Arrival String)
arrivals =
    record {
      wire_serno = ℤ.negsuc 0;
      name = "room";
      action = boot (("c1", "Ann") ∷ []);
      conference = conference;
      answers = all_good;
    }
    ∷ record {
      wire_serno = ℤ.pos 9;
      name = "room";
      action = add none 1 "Bob";
      conference = conference;
      answers = all_good;
    }
    ∷ []

arrive-IsModerated_example : IsModerated (arrive arrivals member)
arrive-IsModerated_example =
    arrive-IsModerated arrivals member (differ "participant" moderator refl)
