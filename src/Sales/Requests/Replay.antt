-- ===== src/Sales/Requests/Replay.antt =====
-- A sale that was made under an idempotency key answers every later use of the key.
use aurum_pos.Prelude.{
  ℕ, ◌≡◌, ◌≢◌, refl, sym, ap, ◌∙◌, subst, Bool, false, not, ◌&&◌, none, some, [], ◌∷◌, find, ◌==◌,
  if◌then◌else◌, Outcome, ok, err, ◌>>=◌, or_raise, arith, find-append_none, ==_refl, ok-injective,
  >>=-eq-ok,
}
use aurum_pos.Text.{Text, =ᵗ_refl}
use aurum_pos.Tables.Access.{Settings}
use aurum_pos.Tables.Sales.{Sale, Store, Fault, key_reused, result_unavailable}
use aurum_pos.Sales.Cart.{SaleCreate}
use aurum_pos.Sales.Checkout.{new_sale, create_sale}
use aurum_pos.Sales.Checkout.Accepted.{create_sale-inv}
use aurum_pos.Sales.Checkout.Totals.{create_sale-total}
use aurum_pos.Sales.Requests.{
  SaleIdempotency, Desk, get_sale_by_id, is_key, replay, use_key, first_sale, sale_for_key,
  sale_for_request,
}

replay_answer :
    (shop_id request_hash : ℕ) (k : SaleIdempotency) (d : Desk) (sale : Sale)
    → k.request_hash ≡ request_hash
    → get_sale_by_id d.db k.sale_id shop_id ≡ some sale
    → replay shop_id request_hash k d ≡ ok (sale, d)
unfolding replay
replay_answer shop_id request_hash k d sale h e = rw (h, ==_refl request_hash, e) refl

==_ne : (a b : ℕ) → a ≢ b → (a == b) ≡ false
==_ne a b ne = ground arith

replay_refusal :
    (shop_id request_hash : ℕ) (k : SaleIdempotency) (d : Desk)
    → k.request_hash ≢ request_hash
    → replay shop_id request_hash k d ≡ err key_reused
unfolding replay
replay_refusal shop_id request_hash k d ne =
    ap
      (λ b.
        if not b
        then err key_reused
        else or_raise (get_sale_by_id d.db k.sale_id shop_id) result_unavailable >>= λ sale.
            ok (sale, d))
      (==_ne k.request_hash request_hash ne)

first_sale-inv :
    (settings : Settings) (now year sale_id job_id shop_id : ℕ) (key : Text) (request_hash : ℕ)
    (request : SaleCreate) (d d' : Desk) (sale : Sale)
    → first_sale settings now year sale_id job_id shop_id key request_hash request d ≡ ok (sale, d')
    → (after : Store) × (create_sale settings now year sale_id job_id shop_id request d.db
        ≡ ok (sale, after))
      × (d' ≡ use_key shop_id key request_hash sale.id after d)
unfolding first_sale
first_sale-inv settings now year sale_id job_id shop_id key request_hash request d d' sale e =
    let (made, created, rest) =
      >>=-eq-ok (create_sale settings now year sale_id job_id shop_id request d.db)
        (λ made. ok (made.0, use_key shop_id key request_hash made.0.id made.1 d)) e in
    let pair = ok-injective rest in
    let same : made.0 ≡ sale = ap (λ p. p.0) pair in
    (
      made.1,
      created ∙ ap (λ s. ok (s, made.1)) same,
      sym (ap (λ p. p.1) pair) ∙ ap (λ s. use_key shop_id key request_hash s.id made.1 d) same,
    )

-- the sale that was made, under its id
made-found :
    (settings : Settings) (now year sale_id job_id shop_id : ℕ) (request : SaleCreate)
    (db after : Store) (sale : Sale)
    → get_sale_by_id db sale_id shop_id ≡ none
    → create_sale settings now year sale_id job_id shop_id request db ≡ ok (sale, after)
    → get_sale_by_id after sale.id shop_id ≡ some sale
unfolding get_sale_by_id new_sale
made-found settings now year sale_id job_id shop_id request db after sale fresh e =
    let a = create_sale-inv settings now year sale_id job_id shop_id request db sale after e in
    let added =
      (create_sale-total settings now year sale_id job_id shop_id request db sale after e).2 in
    let id : sale.id ≡ sale_id = ap (λ s. s.id) a.sale_made in
    let of_shop : sale.shop_id ≡ shop_id = ap (λ s. s.shop_id) a.sale_made in
    let p : ℕ → Sale → Bool = λ k s. s.id == k && s.shop_id == shop_id in
    let missing : find (p sale.id) db.sales ≡ none =
      subst (λ k. find (p k) db.sales ≡ none) (sym id) fresh in
    ap (find (p sale.id)) added
    ∙ find-append_none (p sale.id) db.sales (sale ∷ []) missing
    ∙ rw (==_refl sale.id, of_shop, ==_refl shop_id) refl

key-found :
    (shop_id : ℕ) (key : Text) (request_hash sale_id : ℕ) (after : Store) (d : Desk)
    → find (is_key shop_id key) d.keys ≡ none
    → find (is_key shop_id key) (use_key shop_id key request_hash sale_id after d).keys
      ≡ some (record {
        shop_id = shop_id;
        idempotency_key = key;
        request_hash = request_hash;
        sale_id = sale_id;
      })
key-found shop_id key request_hash sale_id after d e =
    find-append_none (is_key shop_id key) d.keys
      (use_key shop_id key request_hash sale_id after (record d { keys = [] })).keys e
    ∙ rw (==_refl shop_id, =ᵗ_refl key) refl

sale_for_request-unused :
    (settings : Settings) (now year sale_id job_id shop_id : ℕ) (key : Text) (request_hash : ℕ)
    (request : SaleCreate) (d : Desk) (answer : Outcome Fault (Sale × Desk))
    → find (is_key shop_id key) d.keys ≡ none
    → sale_for_request settings now year sale_id job_id shop_id key request_hash request d ≡ answer
    → first_sale settings now year sale_id job_id shop_id key request_hash request d ≡ answer
unfolding sale_for_request sale_for_key
sale_for_request-unused settings now year sale_id job_id shop_id key request_hash request d answer
      unused e =
    sym (
      ap (λ o. sale_for_key o settings now year sale_id job_id shop_id key request_hash request d)
        unused)
    ∙ e

sale_for_request-used :
    (settings : Settings) (now year sale_id job_id shop_id : ℕ) (key : Text) (request_hash : ℕ)
    (request : SaleCreate) (d : Desk) (k : SaleIdempotency)
    → find (is_key shop_id key) d.keys ≡ some k
    → sale_for_request settings now year sale_id job_id shop_id key request_hash request d
      ≡ replay shop_id request_hash k d
unfolding sale_for_request sale_for_key
sale_for_request-used settings now year sale_id job_id shop_id key request_hash request d k used =
    ap (λ o. sale_for_key o settings now year sale_id job_id shop_id key request_hash request d)
      used

pub sale_for_request-once :
    (settings : Settings) (now year sale_id job_id shop_id : ℕ) (key : Text) (request_hash : ℕ)
    (request : SaleCreate) (d d' : Desk) (sale : Sale)
    → find (is_key shop_id key) d.keys ≡ none
    → get_sale_by_id d.db sale_id shop_id ≡ none
    → sale_for_request settings now year sale_id job_id shop_id key request_hash request d
      ≡ ok (sale, d')
    → (settings' : Settings) (later year' sale_id' job_id' : ℕ) (again : SaleCreate)
    → (sale_for_request settings' later year' sale_id' job_id' shop_id key request_hash again d'
        ≡ ok (sale, d'))
      × ((other_hash : ℕ)
          → request_hash ≢ other_hash
          → sale_for_request settings' later year' sale_id' job_id' shop_id key other_hash again d'
            ≡ err key_reused)
sale_for_request-once settings now year sale_id job_id shop_id key request_hash request d d' sale
      unused fresh e settings' later year' sale_id' job_id' again =
    let (after, made, same) =
      first_sale-inv settings now year sale_id job_id shop_id key request_hash request d d' sale (
        sale_for_request-unused settings now year sale_id job_id shop_id key request_hash request d
          (ok (sale, d')) unused e) in
    let used : SaleIdempotency = record {
      shop_id = shop_id;
      idempotency_key = key;
      request_hash = request_hash;
      sale_id = sale.id;
    } in
    let here : find (is_key shop_id key) d'.keys ≡ some used =
      ap (λ x. find (is_key shop_id key) x.keys) same
      ∙ key-found shop_id key request_hash sale.id after d unused in
    let kept : get_sale_by_id d'.db sale.id shop_id ≡ some sale =
      ap (λ x. get_sale_by_id x.db sale.id shop_id) same
      ∙ made-found settings now year sale_id job_id shop_id request d.db after sale fresh made in
    (
      sale_for_request-used settings' later year' sale_id' job_id' shop_id key request_hash again d'
            used here
          ∙ replay_answer shop_id request_hash used d' sale refl kept,
      λ other_hash ne.
          sale_for_request-used settings' later year' sale_id' job_id' shop_id key other_hash again
            d' used here
          ∙ replay_refusal shop_id other_hash used d' ne,
    )
