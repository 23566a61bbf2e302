-- ===== src/Infra/Orderbook.antt =====
-- The orderbook's client (crates/byos/src/infra/orderbook.rs). The HTTP client is a third-party
-- crate: `Http` is the two requests that the code makes of it, over a state `N` of the network, and
-- what they answer once `serde` has read a body. The URLs are not modelled.
pub mod Cache
use byos_service.Prelude.{
  ℕ, Bool, false, true, ◌&&◌, ◌||◌, not, Option, none, some, Result, ok, err, unwrap_or, List, [],
  map, length, String, str_eq, ltb, leb, ◌==◌, if◌then◌else◌,
}
use byos_service.Prelude.Maps.{get_key, put, has_key}
use byos_service.Domain.Proposal.{OrderUid, Address, B256, U256, Bytes, Interaction}
use byos_service.Domain.Order.{OrderKind, SigningScheme, CowOrder, OrderRecord}

pub data OrderbookError : Type 0 where
  order_unknown : OrderbookError
  transient : String → OrderbookError

-- `trait FetchOrder`, over the state `S` of its implementor.
pub record FetchOrder (S : Type 0) : Type 0 where
  pub order : OrderUid → S → Result OrderbookError OrderRecord × S
  pub native_price : Address → S → Result OrderbookError U256 × S

pub record InteractionDto : Type 0 where
  pub target : Address
  pub value : U256
  pub call_data : Bytes

pub data KindDto : Type 0 where
  sell : KindDto
  buy : KindDto

pub data SchemeDto : Type 0 where
  eip712 : SchemeDto
  eth_sign : SchemeDto
  eip1271 : SchemeDto
  pre_sign : SchemeDto

-- `pre` and `post` are the fields of `interactions`.
pub record OrderDto : Type 0 where
  pub receiver : Option Address
  pub sell_token : Address
  pub buy_token : Address
  pub sell_amount : U256
  pub buy_amount : U256
  pub fee_amount : U256
  pub valid_to : ℕ
  pub app_data : B256
  pub kind : KindDto
  pub partially_fillable : Bool
  pub sell_token_balance : String
  pub buy_token_balance : String
  pub signing_scheme : SchemeDto
  pub signature : Bytes
  pub pre : List InteractionDto
  pub post : List InteractionDto

unfoldable pub into_gpv2 : InteractionDto → Interaction
into_gpv2 i = record { target = i.target; value = i.value; call_data = i.call_data }

unfoldable pub into_kind : KindDto → OrderKind
into_kind KindDto.sell = OrderKind.sell
into_kind KindDto.buy = OrderKind.buy

unfoldable pub into_scheme : SchemeDto → SigningScheme
into_scheme SchemeDto.eip712 = SigningScheme.eip712
into_scheme SchemeDto.eth_sign = SigningScheme.eth_sign
into_scheme SchemeDto.eip1271 = SigningScheme.eip1271
into_scheme SchemeDto.pre_sign = SigningScheme.pre_sign

unfoldable pub into_record : OrderDto → OrderRecord
unfolding into_gpv2 into_kind into_scheme
into_record dto =
    let order : CowOrder = record {
      sell_token = dto.sell_token;
      buy_token = dto.buy_token;
      receiver = unwrap_or dto.receiver 0;
      sell_amount = dto.sell_amount;
      buy_amount = dto.buy_amount;
      valid_to = dto.valid_to;
      app_data = dto.app_data;
      fee_amount = dto.fee_amount;
      kind = into_kind dto.kind;
      partially_fillable = dto.partially_fillable;
      signing_scheme = into_scheme dto.signing_scheme;
      signature = dto.signature;
    } in
    record {
      order = order;
      pre_interactions = map into_gpv2 dto.pre;
      post_interactions = map into_gpv2 dto.post;
      erc20_balances =
          str_eq dto.sell_token_balance "erc20" && str_eq dto.buy_token_balance "erc20";
    }

-- A request fails, or is answered with a status and a body, which may not parse.
pub data Response (A : Type 0) : Type 0 where
  unsent : String → Response A
  replied : ℕ → Result String A → Response A

-- A price that is not finite or negative is the text of its error; a usable one is in wei for 10^18
-- atoms, as the code computes it from the floating-point number.
pub record Http (N : Type 0) : Type 0 where
  pub get_order : OrderUid → N → Response OrderDto × N
  pub get_price : Address → N → Response (Result String U256) × N
  pub status_text : ℕ → String

abbrev pub cache_capacity : ℕ
cache_capacity = 10_000

-- `OrderbookClient`
pub record Client (N : Type 0) : Type 0 where
  pub net : N
  pub cache : List (ℕ × OrderRecord)
  pub capacity : ℕ

unfoldable pub remember : {N : Type 0} → OrderUid → OrderRecord → Client N → Client N
unfolding put get_key
remember uid r client =
    let full = leb client.capacity (length client.cache) && not (has_key uid client.cache) in
    record client { cache = put uid r (if full then [] else client.cache) }

-- `is_success`
abbrev is_success : ℕ → Bool
is_success status = leb 200 status && ltb status 300

unfoldable pub read_response : {A : Type 0} → (ℕ → String) → Response A → Result OrderbookError A
read_response status_text (unsent e) = err (transient e)
read_response status_text (replied status body) =
    if status == 404
    then err order_unknown
    else if not (is_success status)
    then err (transient (status_text status))
    else elim body [ ok a ↦ ok a | err e ↦ err (transient e) ]

unfoldable pub order :
    {N : Type 0} → Http N → OrderUid → Client N → Result OrderbookError OrderRecord × Client N
unfolding get_key remember read_response into_record
order http uid client = elim (get_key uid client.cache) [
  | some r ↦ (ok r, client)
  | none ↦
      let (response, net) = http.get_order uid client.net in
      let asked = record client { net = net } in
      elim (read_response http.status_text response) [
        | err e ↦ (err e, asked)
        | ok dto ↦ let r = into_record dto in (ok r, remember uid r asked)
      ]
]

unfoldable pub native_price :
    {N : Type 0} → Http N → Address → Client N → Result OrderbookError U256 × Client N
unfolding read_response
native_price http token client =
    let (response, net) = http.get_price token client.net in
    let asked = record client { net = net } in
    elim (read_response http.status_text response) [
      | err e ↦ (err e, asked)
      | ok price ↦ elim price [ err why ↦ (err (transient why), asked) | ok p ↦ (ok p, asked) ]
    ]

-- `impl FetchOrder for OrderbookClient`
unfoldable pub orderbook : {N : Type 0} → Http N → FetchOrder (Client N)
unfolding order native_price
orderbook http = record { order = order http; native_price = native_price http }
