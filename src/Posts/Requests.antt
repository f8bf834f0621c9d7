-- ===== src/Posts/Requests.antt =====
-- The requests that internal/modules/post serves, and what a sequence of them can do to the
-- tables.
--
-- The guard of internal/platform/authz runs before a request that writes, and passes on the
-- request with its principal or answers itself; here every request is passed on.
-- The listing, which changes nothing, is left out.
use golang_template.Prelude.{String, List, Option}
use golang_template.Errors.{Result}
use golang_template.Storage.{Fault}
use golang_template.Posts.{Tables}
use golang_template.Posts.Events.{Module}
use golang_template.Posts.Handlers.{
  Request, CreatePostPayload, UpdatePostPayload, Handler, create_post_handler, get_post_handler,
  update_post_handler, delete_post_handler, posts_context_middleware,
}

pub data ApiCall : Type 0 where
  create : Request → Result CreatePostPayload → ApiCall
  get : (id_param : String) → ApiCall
  update : Request → (id_param : String) → Result UpdatePostPayload → ApiCall
  delete : Request → (id_param : String) → ApiCall

unfoldable pub serve : Module → ApiCall → Handler
serve m (create rq payload) = create_post_handler m rq payload
serve m (get id_param) = posts_context_middleware m id_param get_post_handler
serve m (update rq id_param payload) =
    posts_context_middleware m id_param (λ p. update_post_handler m rq p payload)
serve m (delete rq id_param) = posts_context_middleware m id_param (λ p. delete_post_handler m rq p)

-- The tables that some sequence of requests leaves, each against any behaviour of the connection.
pub data Later (m : Module) : Tables → Tables → Type 0 where
  here : (t : Tables) → Later m t t
  after :
      (t u : Tables) (q : ApiCall) (faults : List (Option Fault))
      → Later m (serve m q (record { tables = t; faults = faults })).1.tables u
      → Later m t u
