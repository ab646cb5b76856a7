-- ===== src/Worker.antt =====
-- worker/: the worker's client of the backend (internal/client) and its job loop (cmd/worker). The
-- network between the two decides, for each request, how it fares.
pub mod Client
pub mod Jobs
pub mod Calls
pub mod Replies
pub mod Acks
pub mod Poison
pub mod Delivery
pub mod Watch
pub mod Group
pub mod Lease
pub mod Requests
pub mod Main
pub mod Reports
pub mod Paths
use distributed_load_testing.Common.{Option, none, some}
use distributed_load_testing.Float.{Float}
use distributed_load_testing.Handlers.{Handler, World, Surroundings, Response}
use distributed_load_testing.Api.{Call, serve}

-- What becomes of a request: it never arrives; it is served, but no answer comes back in time; the
-- answer comes back with a body that cannot be decoded; or all goes well.
pub data Link : Type 0 where
  lost reply_lost garbled delivered : Link

-- An answer as the client gets it: its status code and its body, if that can be decoded.
pub data Received (F : Type 0) : Type 0 where
  no_answer : Received F
  no_body : Response F → Received F
  answer : Response F → Received F

-- The surroundings of one request of the worker: those that its handler meets, and the network.
pub record Trip : Type 0 where
  pub surroundings : Surroundings
  pub link : Link

module _ {F : Type 0} ⦃f : Float F⦄ where
  unfoldable pub send_over : Link → Handler → Surroundings → World F → Call F → World F × Received F
  send_over lost h e w call = (w, no_answer)
  send_over reply_lost h e w call = ((serve h e w call).0, no_answer)
  send_over garbled h e w call = let (w', r) = serve h e w call in (w', no_body r)
  send_over delivered h e w call = let (w', r) = serve h e w call in (w', answer r)

  -- `http.Client.Do`.
  unfoldable pub send : Handler → Trip → World F → Call F → World F × Received F
  unfolding send_over
  send h t w call = send_over t.link h t.surroundings w call
