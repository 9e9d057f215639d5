-- ===== src/Tables/Sales.antt =====
-- Sales, their lines and what checkout leaves behind, app/modules/sales/models.py; and the store of
-- all the rows that a request's transaction reads and writes.
use aurum_pos.Prelude.{ℕ, Bool, true, false, Option, List}
use aurum_pos.Text.{Text}
use aurum_pos.Items.Pricing.{LockedPrice}
use aurum_pos.Tables.Access.{Organization, Shop, ShopMembership, User, ShopInvitation, Subscription}
use aurum_pos.Tables.Stock.{Item, ItemHistory, Change, MetalRate}

-- `price` is in paise, weights are in milligrams
pub record SaleItem : Type 0 where
  pub sale_id : ℕ
  pub shop_id : ℕ
  pub item_id : ℕ
  pub quantity : ℕ
  pub price : ℕ
  pub breakdown : LockedPrice
  pub sold_weight : Option ℕ

-- the number of an invoice: prefix, year and sequence
pub record InvoiceNo : Type 0 where
  pub prefix : Text
  pub year : ℕ
  pub sequence : ℕ

pub data JobStatus : Type 0 where
  pending processing ready failed : JobStatus

abbrev pub is_pending : JobStatus → Bool
is_pending pending = true
is_pending _ = false

abbrev pub is_processing : JobStatus → Bool
is_processing processing = true
is_processing _ = false

abbrev pub is_ready : JobStatus → Bool
is_ready ready = true
is_ready _ = false

abbrev pub is_failed : JobStatus → Bool
is_failed failed = true
is_failed _ = false

pub record Sale : Type 0 where
  pub id : ℕ
  pub shop_id : ℕ
  pub invoice_no : InvoiceNo
  pub total_amount : ℕ
  pub customer_phone : Text
  pub created_at : ℕ
  pub s3_object_key : Option ℕ
  pub pdf_checksum : Option ℕ
  pub invoice_pdf_status : JobStatus
  pub invoice_pdf_attempts : ℕ
  pub invoice_pdf_next_attempt_at : Option ℕ
  pub invoice_pdf_lease_until : Option ℕ
  pub invoice_pdf_last_error_code : Option ℕ

pub record InvoiceJob : Type 0 where
  pub id : ℕ
  pub shop_id : ℕ
  pub sale_id : ℕ
  pub status : JobStatus
  pub attempts : ℕ
  pub next_attempt_at : Option ℕ
  pub lease_until : Option ℕ
  pub lease_token : Option ℕ
  pub last_error_code : Option ℕ
  pub created_at : ℕ

pub record Store : Type 0 where
  pub organizations : List Organization
  pub shops : List Shop
  pub memberships : List ShopMembership
  pub users : List User
  pub invitations : List ShopInvitation
  pub subscriptions : List Subscription
  pub items : List Item
  pub item_histories : List ItemHistory
  pub changes : List Change
  pub metal_rates : List MetalRate
  pub sales : List Sale
  pub sale_items : List SaleItem
  pub invoice_jobs : List InvoiceJob

-- What a request raises: the HTTP errors and `ValueError`s of the services.
pub data Fault : Type 0 where
  shop_missing organization_missing shop_read_only : Fault
  item_limit_reached pro_required shop_limit_reached team_limit_reached : Fault
  item_missing not_in_stock items_missing : Fault
  item_type_changed stock_mode_changed remaining_weight_edited : Fault
  total_weight_not_positive total_weight_below_consumed invalid_item : Fault
  barcodes_exhausted : Fault
  quantity_and_weight item_unavailable weight_required weight_short sold_by_quantity : Fault
  quantity_short metal_rate_missing total_required pricing_changed : Fault
  key_error key_reused result_unavailable : Fault
  confirmation_missing whatsapp_unavailable template_not_approved invalid_phone : Fault
  delivery_already_pending resend_confirmation_required sale_missing : Fault
  barcode_in_use : Fault
  unknown_product product_mismatch purchase_not_linked token_used play_unavailable : Fault
