-- ===== src/Keeper/Indexer.antt =====
-- keeper/src/indexer/indexer.service.ts: paging through the indexer's lists, and the candidates for
-- liquidation. A single request is an operation of the outside world.
pub mod Pages
pub mod Merge
use Prim.Native.String.{String}
use leverx.Prelude.{
  ℕ, zero, suc, ◌+◌, Bool, true, false, not, ◌&&◌, ◌||◌, List, [], ◌∷◌, ◌++◌, Option, none, some,
}
use leverx.Prelude.Tests.{ltb, ◌==◌, if◌then◌else◌}
use leverx.Prelude.Texts.{text_eq}
use leverx.Prelude.Lists.{length, take}
use leverx.Keeper.Types.{Text, LeveragedPosition, LimitMintOrder}
use leverx.Keeper.Effects.{Reply, M, return, outside, ◌>>=◌}

pub record Page (T : Type 0) : Type 0 where
  pub items : List T
  pub limit : ℕ
  pub offset : ℕ
  pub has_more : Bool

abbrev pub is_empty : {T : Type 0} → List T → Bool
is_empty [] = true
is_empty (x ∷ xs) = false

module _ {W T : Type 0} (fetch_page : ℕ → ℕ → W → Reply (Page T) × W) where
  -- The `while` loop; `fuel` bounds its rounds.
  unfoldable pub pages_loop : ℕ → ℕ → ℕ → List T → ℕ → M W (List T)
  pages_loop zero page_size max_items items offset = return items
  pages_loop (suc fuel) page_size max_items items offset =
      if ltb (length items) max_items
      then (do
        page ← outside (fetch_page offset page_size)
        let items' = items ++ page.items
        elim (not page.has_more || is_empty page.items) [
          | true ↦ return items'
          | false ↦ pages_loop fuel page_size max_items items' (offset + page.limit)
        ])
      else return items

  -- Each round but the last adds an item, so `max_items` rounds are enough.
  unfoldable pub fetch_all_pages : ℕ → ℕ → M W (List T)
  fetch_all_pages page_size max_items = do
    items ← pages_loop max_items page_size max_items [] 0
    return (take max_items items)

abbrev pub default_page_size : ℕ
default_page_size = 500

abbrev pub default_max_items : ℕ
default_max_items = 5_000

pub data StatusFilter : Type 0 where
  any_status only_open : StatusFilter

pub record PositionQuery : Type 0 where
  pub status : StatusFilter
  pub min_borrow_quote : Option ℕ
  pub min_open_quantity : Option ℕ
  pub max_expiry_ms : Option ℕ
  pub has_predict_manager : Option Bool
  pub has_margin : Option Bool
  pub exclude_liquidated : Bool

pub record LimitOrderQuery : Type 0 where
  pub min_order_expires_ms : Option ℕ
  pub max_order_expires_ms : Option ℕ

-- What the keeper asks of the indexer's HTTP interface.
pub record Indexer (W : Type 0) : Type 0 where
  pub fetch_positions : PositionQuery → ℕ → ℕ → W → Reply (Page LeveragedPosition) × W
  pub fetch_limit_orders : LimitOrderQuery → ℕ → ℕ → W → Reply (Page LimitMintOrder) × W
  -- the `predict_manager_id` of the account, if there is an account and it has one
  pub fetch_account_manager : Text → W → Reply (Option Text) × W

-- `${account_id}:${position_key}`
abbrev pub target_key : Text → Text → Text
target_key account_id position_key = account_id ++ (b':' ∷ position_key)

abbrev pub seen_before : Text → List Text → Bool
seen_before key [] = false
seen_before key (k ∷ ks) = text_eq k key || seen_before key ks

abbrev pub position_target : LeveragedPosition → Text
position_target p = target_key p.account_id p.position_key

-- The first position of each key, in order.
unfoldable pub merge_candidates : List Text → List LeveragedPosition → List LeveragedPosition
merge_candidates seen [] = []
merge_candidates seen (p ∷ ps) =
    let key = position_target p in
    let skip = merge_candidates seen ps in
    let keep = p ∷ merge_candidates (key ∷ seen) ps in if seen_before key seen then skip else keep

abbrev margin_query : PositionQuery
margin_query = record {
  status = only_open;
  min_borrow_quote = none;
  min_open_quantity = none;
  max_expiry_ms = none;
  has_predict_manager = some true;
  has_margin = some true;
  exclude_liquidated = true;
}

abbrev borrow_query : PositionQuery
borrow_query = record {
  status = any_status;
  min_borrow_quote = some 1;
  min_open_quantity = none;
  max_expiry_ms = none;
  has_predict_manager = some true;
  has_margin = none;
  exclude_liquidated = true;
}

-- The two lists are fetched at once by the code; here the first is fetched before the second.
unfoldable pub fetch_liquidation_candidates :
    {W : Type 0} → Indexer W → M W (List LeveragedPosition)
unfolding merge_candidates
fetch_liquidation_candidates ix = do
  with_margin ←
      fetch_all_pages (ix.fetch_positions margin_query) default_page_size default_max_items
  with_borrow ←
      fetch_all_pages (ix.fetch_positions borrow_query) default_page_size default_max_items
  return (merge_candidates [] (with_margin ++ with_borrow))
