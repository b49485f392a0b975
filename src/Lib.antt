-- ===== src/Lib.antt =====
-- The core of the asset inventory backend: the services that say who has an asset, where it is,
-- and which shipment or deployment reserves it. All of them work on one database, through the
-- session that a request opens.
--
-- Which file models what:
-- - Store (app/models/inventory.py, app/db.py): a table is the list of its rows (Store/Rows), a
--   statement by primary key is get_row, put_row or drop_row (Store/Table), and the session of one
--   request is Store/Session: `commit` saves the work, and what is not committed is dropped when
--   the handler returns or raises. An HTTPException is a value of Base/Http.
-- - Reservation: the queries that find out who holds an asset, which the services share or repeat
--   (app/services/shipment_service.py, app/services/deployment_service.py and
--   app/services/inventory_service.py). Reservation/Reserve has the reservation rule for records
--   and items of any kind, of which shipments and deployments are the two instances.
--   Reservation/AutoAssign is the part that create_shipment and create_deployment repeat.
-- - Shipments (app/services/shipment_service.py): Check, Create, Items, Header and Refresh are its
--   operations; Reserve, Keeps, Closing and Frame relate them to the reservation rule, Created
--   is about a creation that succeeds, Stock and Short about auto-assign, and Refresh/Keeps, Refresh/Events, Refresh/Delivery and
--   Refresh/Frame are about polling.
-- - Tracking (app/services/tracking_service.py): the result types; Parse is the two parsers, Fetch
--   the token cache, the providers and fetch_tracking, Carriers detect_carrier. Laws is about tokens
--   and fetch_tracking, Numbers about the forms of tracking numbers, Payload and Scans about the
--   payloads of UPS and FedEx; Expected says what their codes and times mean, apart from the
--   parsers, and Reported what the parsers make of them.
-- - Deployments (app/services/deployment_service.py): Check, Create, Items, Lifecycle and Links are
--   its operations; Reserve, Release, Forced, Keeps, Closing and Frame relate them to the
--   reservation rule, and Complete is about a completion.
-- - Requests: the two services over one database, as a step relation with one constructor for each
--   operation, and the databases that are reached by it; Requests/Refused is about requests that
--   raise.
-- - Inventory (app/services/inventory_service.py): assignment, unassignment, change of status and
--   archiving, with the history; Laws and Archived are about the life of an asset. Onboard is
--   onboard_asset and what it keeps apart. Locations is
--   bulk_set_location, and Locations/Rows is about what it changes and counts.
-- - Auth: Settings (app/config.py) is the settings on authentication, Claims and Context
--   (app/platform/auth_context.py) are the contexts of the three modes, and Guards is the guards and
--   the dependencies made of them (app/dependencies.py). Permissions, Values, Holders and
--   Tokens are about who gets in and with which permissions.
-- - Api (app/api/shipments.py, app/api/deployments.py): the routes, each a guard and a service;
--   Api/Allowed is about who changes the database through them.
-- - Paging (app/services/_graph_paging.py): the loop over the pages of a listing; Pages is about it.
-- - Networks (app/services/network_service.py): Addresses is what it uses of `ipaddress`, Index the
--   VLAN index and match_ip, Links the linking of assets, Vlans the upsert of VLANs, Meraki the
--   two calls for a network's appliance (app/services/lookup_service.py), Prefetch the reading of
--   Meraki's answers, Sync and Run sync_from_meraki, and Edit update_network. Best,
--   Longest, Relink, Mirror, Active and Forgets are about them.
-- - Cache (app/platform/cache/memory_cache.py): the dictionary with times; Cache/Refines is an
--   abstract map and the refinement.
-- - Python: the values of JSON, and expressions that raise built-in errors.
-- - Base: what all of them share. Tests: the theorems at concrete inputs.
--
-- The clock is an argument `now` of the operations; where the source reads it twice, there are two.
-- The carrier's answer is an argument of refresh_shipment. Replies over HTTP are functions that a
-- `Provider` holds, and strptime, fromisoformat, json.dumps, str and int are those of a `Library`;
-- nothing is supposed of them. What the JWT library makes of a token is a function, a `Decoder`;
-- ip_address and ip_network are those of a `Parser`; what a call of Meraki's appliance endpoints
-- comes to, its retries included, is a function that a `Remote` holds; Meraki's answers are records with the fields
-- that the source reads, where no network is listed twice (its VLANs would be inserted twice). The
-- key that the database gives to a new row is the parameter `Database`: any function that answers
-- with a key which is not taken. Requests are handled one after the other; interleavings of two
-- sessions are not modelled. Loops are structural recursion on the list that they run over. `str`
-- of Base/Text runs on fuel, one more than the number, beyond which more fuel changes nothing, and
-- the paging loop on the number of pages that are left of max_pages, as in the source.
--
-- Not modelled: the listing queries with their filters and pages, the synchronisation with Intune,
-- Defender and Snowflake, the clients that Meraki has seen, reports, the calls of Intune after an
-- assignment, the other routes, the validation of bodies and the settings on other things than
-- authentication, which are input and output or change no reservation; logging and locks. `strip`,
-- `lower`, `upper` and the forms of tracking numbers know the ASCII characters, and the texts of
-- errors are the values that they show.
pub mod Base
pub mod Store
pub mod Reservation
pub mod Tracking
pub mod Shipments
pub mod Deployments
pub mod Requests
pub mod Inventory
pub mod Python
pub mod Auth
pub mod Cache
pub mod Networks
pub mod Api
pub mod Paging
pub mod Tests
