-- ===== src/PrivilegedAgent/NginxTests.antt =====
-- Concrete runs of nginx.save_config_atomic, and the theorem on its rollback applied to one.
use nereus_door_loong_magic.Common.{◌≡◌, String, true, none, some, [], ◌∷◌, refl}
use nereus_door_loong_magic.Common.Dict.{lookup, insert}
use nereus_door_loong_magic.PrivilegedAgent.Scripts.{Finished, exited, command_failed, run_command}
use nereus_door_loong_magic.PrivilegedAgent.V1.{failed}
use nereus_door_loong_magic.PrivilegedAgent.Nginx.{
  Files, Server, exists, write, symlink, ensure_symlink, place, left, roll_back, reload,
  save_config_atomic,
}
use nereus_door_loong_magic.PrivilegedAgent.Rollback.{save_config_atomic-restores}

program : Unit {0}
unfolding lookup insert exists write symlink ensure_symlink place left roll_back reload
    save_config_atomic run_command
program = tt

abbrev rejected : Finished
rejected = record { returncode = "1"; stdout = ""; stderr = "unexpected }" }

abbrev server : Server
server = record {
  test = λ s. exited rejected;
  system = record {
    run = λ argv. exited (record { returncode = "0"; stdout = ""; stderr = "" });
    path_exists = λ path. true;
    read_text = λ path. none;
    write_text = λ path content. true;
    path_text = λ path. path;
    length_text = λ content. "0";
  };
  can_write = λ s path. true;
  can_link = λ s path. true;
}

abbrev site : String
site = "/etc/nginx/sites-available/a.conf"

abbrev before : Files
before = record { texts = (site, "server {}") ∷ []; links = [] }

abbrev between : Files
between = record {
  texts = (site, "server }") ∷ [];
  links = ("/etc/nginx/sites-enabled/a.conf", site) ∷ [];
}

places : place server site "server }" "a" "sites-enabled" before ≡ some between
unfolding program
places = refl

holds : lookup site before.texts ≡ some "server {}"
unfolding program
holds = refl

save_config_atomic-restores_example :
    ((save_config_atomic server site "server }" "a" "sites-enabled" before).0
      ≡ failed command_failed)
    × (lookup site (save_config_atomic server site "server }" "a" "sites-enabled" before).1.texts
        ≡ lookup site before.texts)
save_config_atomic-restores_example =
    save_config_atomic-restores server site "server }" "a" "sites-enabled" before between
      "server {}" rejected site holds places refl refl refl

-- A site that is new has nothing to go back to: the text that the test rejects stays, and is enabled.
stays :
    save_config_atomic server site "server }" "a" "sites-enabled"
      (record { texts = []; links = [] })
    ≡ (failed command_failed, between)
unfolding program
stays = refl
