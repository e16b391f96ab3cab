-- ===== src/Tests/Sidebar.antt =====
-- Runs of apps/server-go/internal/sessionorder, metadata and widthsync.
use tail_claude_mux.SessionOrder.Shown.{hide-show}
use tail_claude_mux.SessionOrder.Synced.{sync-keeps_order, NoRepeats}
use tail_claude_mux.SessionOrder.Moved.{reorder-exchanges}
use tail_claude_mux.SessionOrder.Saved.{save-load}
use tail_claude_mux.WidthSync.Rows.{
  compute_min, branch_row, name_row, agent_badge_width, count_agents, has_dir_mismatch,
  last_segment, split_slash, absolute_min,
}
use tail_claude_mux.WidthSync.Least.{compute_min-least, Fits}
use tail_claude_mux.Wire.{SessionData, MetadataLogEntry}
use tail_claude_mux.Base.{
  text_beq, codes, Text, keep_if, ==→ne, ◌==◌, arith, ◌++◌, ◌∷◌, [], List, none, some, ◌&&◌, not,
  true, refl, ◌≡◌, ◌≤◌, nat_eq, text_eq, option_eq,
}
use tail_claude_mux.SessionOrder.State.{
  show, hide, reorder, Delta, sync, save, load, Order, has_name, apply,
}

abbrev a : Text
a = codes "api"

abbrev b : Text
b = codes "build"

abbrev both : Order
both = record { order = b ∷ a ∷ []; hidden = []; persist_path = codes "order.json"; file = none }

sync-keeps_order_example :
    NoRepeats (sync (a ∷ []) both).order
    × ((new : List Text) × ((sync (a ∷ []) both).order
          ≡ keep_if (has_name (a ∷ [])) both.order ++ new))
unfolding text_beq
sync-keeps_order_example = sync-keeps_order (a ∷ []) both (refl, (refl, tt))

hide-show_example :
    (has_name (apply (hide a both) (a ∷ b ∷ [])) a
      ≡ (has_name (apply both (a ∷ b ∷ [])) a && not (a == a)))
    × (has_name (apply (show a (hide a both)) (a ∷ b ∷ [])) a
        ≡ has_name (apply both (a ∷ b ∷ [])) a)
unfolding text_beq
hide-show_example = hide-show a both (a ∷ b ∷ []) a refl refl

reorder-exchanges_example :
    (reorder b (Delta.down 1) both ≡ some (save (record both { order = a ∷ b ∷ [] })))
    × (reorder a (Delta.up 1) both ≡ some (save (record both { order = a ∷ b ∷ [] })))
    × (reorder b (Delta.up 6) both ≡ some both)
    × (reorder a (Delta.down 6) both ≡ some both)
unfolding text_beq
reorder-exchanges_example = reorder-exchanges [] b [] a [] 5 both refl refl refl

save-load_example :
    ((load both.persist_path (save both).file).order ≡ both.order)
    × (has_name (load both.persist_path (save both).file).hidden a ≡ has_name both.hidden a)
unfolding text_beq
save-load_example = save-load both a (==→ne both.persist_path [] refl)

abbrev read_entry : MetadataLogEntry
read_entry = record {
  message = codes "main.go";
  tone = [];
  source = [];
  verb = codes "read";
  ts = 0;
}

abbrev api_session : SessionData
api_session = record {
  name = a;
  dir = codes "/home/me/api";
  branch = codes "main";
  unseen = true;
  agents = [];
}

compute_min-least_example :
    (absolute_min ≤ compute_min (api_session ∷ []))
    × Fits (compute_min (api_session ∷ [])) (api_session ∷ [])
    × (compute_min (api_session ∷ []) ≤ 40)
unfolding name_row branch_row agent_badge_width count_agents has_dir_mismatch split_slash
    last_segment text_beq
compute_min-least_example =
    compute_min-least (api_session ∷ []) 40 (ground arith) (ground arith, ground arith, tt, tt)
