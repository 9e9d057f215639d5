-- ===== src/Items/Catalog.antt =====
-- app/modules/items/catalog.py: the canonical category names. `lower` folds the ASCII letters only.
use aurum_pos.Prelude.{◌≡◌, if◌then◌else◌}
use aurum_pos.Text.{Text, text, normalize, ◌=ᵗ◌}
use aurum_pos.Text.Strip.{normalize_idem}

-- `CATEGORY_ALIASES.get(normalized, normalized)`
abbrev alias : Text → Text
alias t = if t =ᵗ text "earrings" then text "earring" else t

unfoldable pub normalize_category : Text → Text
normalize_category category = alias (normalize category)

-- Categories that normalise alike are one category.
pub normalize_category_congr : (c : Text) → normalize_category (normalize c) ≡ normalize_category c
unfolding normalize_category
normalize_category_congr c = rw (normalize_idem c)
