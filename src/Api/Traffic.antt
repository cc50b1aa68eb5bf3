-- ===== src/Api/Traffic.antt =====
-- internal/handlers/server_handler.go, request_handler.go and delivery_handler.go.
use sukumad.Prelude.{if◌then◌else◌, ℤ, int32, Option, none, some, List, [], ◌∷◌}
use sukumad.Text.{Bytes, str}
use sukumad.Text.Atoi.{atoi}
use sukumad.Types.{Time, Server, Request}
use sukumad.Store.{Action, pure}
use sukumad.Web.{server, servers, request, requests, delivery, deliveries, Reply, failure}
use sukumad.Records.Servers.{
  list_servers, get_server_by_id, create_server, update_server, delete_server,
}
use sukumad.Records.Requests.{
  list_requests, get_request_by_id, create_request, update_request, delete_request, expand,
}
use sukumad.Records.Deliveries.{
  list_deliveries, get_delivery_by_id, patch_delivery, delete_delivery,
}
use sukumad.Api.Input.{
  limit_of, offset_of, loose_id, checked_id, answering, bound, broken, done_body, no_body,
}

abbrev with_id : Bytes → (ℤ → Action Reply) → Action Reply
with_id id k = elim (checked_id id) [ none ↦ pure (failure 400 (str "invalid id")) | some i ↦ k i ]

unfoldable pub server_list : Bytes → Bytes → Action Reply
server_list limit offset =
    answering 200 (λ ss. servers ss (limit_of limit) (offset_of offset))
      (broken (str "list failed")) (list_servers (limit_of limit) (offset_of offset))

unfoldable pub server_get : Bytes → Action Reply
server_get id =
    with_id id (λ i. answering 200 server (failure 404 (str "not found")) (get_server_by_id i))

unfoldable pub server_create : Bytes → Option Server → Action Reply
server_create uid body =
    bound body (λ s. answering 201 server (broken (str "create failed")) (create_server uid s))

unfoldable pub server_update : Bytes → Option Server → Action Reply
server_update id body = with_id id (λ i. bound body (λ s.
    answering 200 server (broken (str "update failed")) (update_server (record s { id = i }))))

unfoldable pub server_delete : Bytes → Action Reply
server_delete id =
    with_id id (λ i. answering 204 no_body (broken (str "delete failed")) (delete_server i))

unfoldable pub request_list : Bytes → Bytes → Action Reply
request_list limit offset =
    answering 200 (λ rs. requests rs (limit_of limit) (offset_of offset))
      (broken (str "list failed")) (list_requests (limit_of limit) (offset_of offset))

unfoldable pub request_get : Bytes → Action Reply
request_get id =
    answering 200 request (failure 404 (str "not found")) (get_request_by_id (loose_id id))

unfoldable pub request_create : Bytes → Option Request → Action Reply
request_create uid body =
    bound body (λ r. answering 201 request (broken (str "create failed")) (create_request uid r))

unfoldable pub request_update : Bytes → Option Request → Action Reply
request_update id body = bound body (λ r.
    answering 200 request (broken (str "update failed"))
      (update_request (record r { id = loose_id id })))

unfoldable pub request_delete : Bytes → Action Reply
request_delete id =
    answering 204 no_body (broken (str "delete failed")) (delete_request (loose_id id))

-- The `cc` that are numbers.
unfoldable pub cc_ids : List Bytes → List ℤ
unfolding atoi
cc_ids [] = []
cc_ids (s ∷ ss) = let (v, fine) = atoi s in let rest = cc_ids ss in if fine then v ∷ rest else rest

unfoldable pub request_expand : Bytes → Bytes → List Bytes → Action Reply
unfolding cc_ids
request_expand id destination cc =
    answering 200 done_body (broken (str "expand failed"))
      (expand (loose_id id) (int32 (loose_id destination)) (cc_ids cc))

-- The body of a patch.
pub record Patch : Type 0 where
  pub status : Option Bytes
  pub next_run_at : Option Time
  pub priority : Option ℤ

unfoldable pub delivery_list : Bytes → Bytes → Bytes → Action Reply
delivery_list limit offset status =
    answering 200 (λ ds. deliveries ds (limit_of limit) (offset_of offset))
      (broken (str "list failed")) (list_deliveries status (limit_of limit) (offset_of offset))

unfoldable pub delivery_get : Bytes → Action Reply
delivery_get id =
    answering 200 delivery (failure 404 (str "not found")) (get_delivery_by_id (loose_id id))

unfoldable pub delivery_patch : Bytes → Option Patch → Action Reply
delivery_patch id body = bound body (λ p.
    answering 200 done_body (broken (str "patch failed"))
      (patch_delivery (loose_id id) p.status p.next_run_at p.priority))

unfoldable pub delivery_delete : Bytes → Action Reply
delivery_delete id =
    answering 204 no_body (broken (str "delete failed")) (delete_delivery (loose_id id))
