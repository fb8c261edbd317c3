-- ===== src/Fanout/Plan/Fits.antt =====
-- The items of a plan suit the entries that they are planned for.
use skill_sync_sidecar.Common.{String, ◌≡◌, refl}
use skill_sync_sidecar.Common.{◌≢◌, true, false}
use skill_sync_sidecar.Common.{Option, none, some, List, arith}
use skill_sync_sidecar.Common.{option_eq, string_eq, nat_eq}
use skill_sync_sidecar.Fanout.{Tree, file, directory, Entry, symlink, thing, Disk, within}
use skill_sync_sidecar.Fanout.{entry_hash}
use skill_sync_sidecar.Common.Dict.{Dict}
use skill_sync_sidecar.Fanout.Items.{FanoutTool, FanoutSkill, FanoutItem, is_noop}
use skill_sync_sidecar.Fanout.Plan.{plan_entry, link_action, directory_action, copy_action}
use skill_sync_sidecar.Fanout.Plan.{removal}
use skill_sync_sidecar.Fanout.Execute.Item.{IsFit}
use skill_sync_sidecar.Fanout.Rollback.{kind_of}

-- The skill's directory is there, and inside the canonical root.
pub record IsSource (D : Disk) (canonical : String) (skill : FanoutSkill) : Type 0 where
  pub tree : Tree
  pub there : D.at skill.path ≡ some (directory tree)
  pub inside : within (D.real skill.path) canonical ≡ true

-- A link of the directory has a text.
abbrev pub HasLinkTexts : Option Entry → Type 0
HasLinkTexts entry = (raw : String) → entry ≡ some (symlink raw) → raw ≢ ""

module _ (D : Disk) (canonical : String) (roots : List String) (tool : FanoutTool) where
  pub plan_entry-IsFit :
      (ledger : Dict String String) (skill : FanoutSkill) (entry : Option Entry)
      → IsSource D canonical skill
      → HasLinkTexts entry
      → let item = plan_entry D canonical roots tool ledger skill entry in
        is_noop item.action ≡ false → IsFit D canonical item entry
  unfolding plan_entry link_action directory_action copy_action kind_of entry_hash
  plan_entry-IsFit ledger skill none source texts acts = record {
    suits = ground arith;
    inside = λ k. ground (arith, source.inside);
    copies = λ k. (source.tree, source.there, ground (arith, source.there));
  }
  plan_entry-IsFit ledger skill (some (symlink raw)) source texts acts = record {
    suits = ground (arith, texts raw refl);
    inside = λ k. ground (arith, source.inside);
    copies = λ k. (source.tree, source.there, ground (arith, source.there));
  }
  plan_entry-IsFit ledger skill (some (thing file)) source texts acts = absurd (ground arith)
  plan_entry-IsFit ledger skill (some (thing (directory t))) source texts acts = record {
    suits = ground arith;
    inside = λ k. ground (arith, source.inside);
    copies = λ k. (source.tree, source.there, ground (arith, source.there));
  }

  pub removal-IsFit :
      (given : String) (ledger : Dict String String) (name : String) (entry : Option Entry)
      (item : FanoutItem)
      → HasLinkTexts entry
      → removal D canonical roots tool given ledger name entry ≡ some item
      → (item.name ≡ name) × (is_noop item.action ≡ false → IsFit D canonical item entry)
  unfolding removal kind_of
  removal-IsFit given ledger name none item texts h = absurd (ground arith)
  removal-IsFit given ledger name (some (symlink raw)) item texts h = (
    ground arith,
    λ acts. record {
      suits = ground (arith, texts raw refl);
      inside = λ k. ground arith;
      copies = λ k. absurd (ground arith);
    },
  )
  removal-IsFit given ledger name (some (thing file)) item texts h = absurd (ground arith)
  removal-IsFit given ledger name (some (thing (directory t))) item texts h = (
    ground arith,
    λ acts. record {
      suits = ground arith;
      inside = λ k. ground arith;
      copies = λ k. absurd (ground arith);
    },
  )
