-- ===== src/Heartbeat/Sending.antt =====
-- What a heartbeat does to the notifications and the results.
use appcenter_agent.Common.{
  ℕ, ◌≤◌, String, ◌≡◌, refl, ap, ◌∙◌, inl, inr, false, Option, none, some, List, [], arith, ltb,
  ltb→lt, Bool-cases, nat_eq, int_eq, string_eq, length, length-append,
}
use appcenter_agent.Queue.{TaskQueue, consume_apps_changed}
use appcenter_agent.Heartbeat.{
  ServiceItem, ServicesPart, Sender, HeartbeatRequest, HeartbeatResponse, PollResult, Station,
  on_reply, offer, poll_result, request_of, send_once, maybe_attach_services,
}

offer-bound :
    (capacity : ℕ) (rs : List PollResult) (r : PollResult)
    → length rs ≤ capacity
    → length (offer capacity rs r) ≤ capacity
offer-bound capacity rs r h = elim (Bool-cases (ltb (length rs) capacity)) [
  | inl e ↦ rw (e, length-append) (omega (arith, ltb→lt (length rs) capacity e))
  | inr e ↦ rw e h
]

consumed_once : (q : TaskQueue) → (consume_apps_changed (consume_apps_changed q).1).0 ≡ (false, [])
unfolding consume_apps_changed
consumed_once q = elim (Bool-cases q.apps_changed) [ inl e ↦ simp e | inr e ↦ simp e ]

on_reply_lem :
    (now capacity : ℕ) (s : Sender) (q : TaskQueue) (rs : List PollResult)
    (o : Option HeartbeatResponse)
    → length rs ≤ capacity
    → ((on_reply now capacity s q rs o).queue ≡ q)
      × (length (on_reply now capacity s q rs o).results ≤ capacity)
      × (o ≡ none → (on_reply now capacity s q rs o).results ≡ rs)
unfolding on_reply
on_reply_lem now capacity s q rs none h = (refl, h, λ e. refl)
on_reply_lem now capacity s q rs (some resp) h =
    (refl, offer-bound capacity rs (poll_result now resp) h, λ e. ground arith)

-- ConsumeAppsChanged names no apps where none have changed
apps_of_changed :
    (q : TaskQueue) (part : ServicesPart) (inventory_hash : String)
    → (request_of part inventory_hash (consume_apps_changed q).0).installed_apps
      ≡ (consume_apps_changed q).0.1
unfolding consume_apps_changed
apps_of_changed q part inventory_hash = elim (Bool-cases q.apps_changed) [
  | inl e ↦ simp e
  | inr e ↦ simp e
]

-- Whether or not the server is reached, the request of a heartbeat has the notification of
-- changed apps that the queue holds, with the list of these apps, and the hash of the inventory,
-- and the heartbeat uses the notification up; the results that wait stay within the capacity of
-- their channel, and if the server was not reached they stay as they were.
pub send_once_lem :
    (hash_services : List ServiceItem → String) (now capacity : ℕ) (inventory_hash : String)
    (rows : Option (List ServiceItem)) (server : HeartbeatRequest → Option HeartbeatResponse)
    (st : Station)
    → length st.results ≤ capacity
    → let r = send_once hash_services now capacity inventory_hash rows server st in
      (r.0.apps_changed ≡ (consume_apps_changed st.queue).0.0)
      × (r.0.installed_apps ≡ (consume_apps_changed st.queue).0.1)
      × (r.0.inventory_hash ≡ inventory_hash)
      × ((consume_apps_changed r.1.queue).0 ≡ (false, []))
      × (length r.1.results ≤ capacity)
      × (server r.0 ≡ none → r.1.results ≡ st.results)
unfolding send_once
send_once_lem hash_services now capacity inventory_hash rows server st h =
    let apps = consume_apps_changed st.queue in
    let attached = maybe_attach_services hash_services st.sender now rows in
    let l =
      on_reply_lem now capacity attached.1 apps.1 st.results
        (server (request_of attached.0 inventory_hash apps.0)) h in
    (
      refl,
      apps_of_changed st.queue attached.0 inventory_hash,
      refl,
      ap (λ q. (consume_apps_changed q).0) l.0 ∙ consumed_once st.queue,
      l.1,
      l.2,
    )
