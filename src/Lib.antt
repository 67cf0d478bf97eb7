-- ===== src/Lib.antt =====
-- The messenger service: what its message core does, and what holds of it.
--
-- The service (src/restful) keeps classes of messages ("configurations"), sends messages of a class
-- to users, and changes and deletes them. A class has a mode, which says how its messages travel
-- (pushed to sockets, pulled from a list in Redis, or sent by another service), a type, which says
-- whose status a message has ("exclusive", "broadcast", "shared", or "linkage" for two linked
-- copies), and whether its messages persist (in MongoDB, else in Redis). A request is validated,
-- carried out, and the message is stored; a message for a user of another instance of the service
-- goes to that instance, whose handler delivers it.
--
-- The files and the code (paths from the root of the repository):
-- - Models: the documents of src/restful/models and the models of src/restful/services.
-- - Common: `contains` and `CreateError` of src/restful/services/common.go, and the table of
--   src/configs/errors.go.
-- - Crypto: the padding, AES-CBC and the Base64 forms of src/restful/services/common.go. The cipher
--   and encoding/base64 are parameters.
-- - Configuration: `CreateConfiguration`, `UpdateConfiguration` and `DeleteConfiguration` of
--   src/restful/services/configuration.go. Validate and Actions are the validators, Inherit the fields
--   that a request may leave out, Customs and Register the custom configurations and what Redis
--   keeps of their applications, Settings what other code gives; Kept and View are about the
--   collection as a list and as a map, Valid and Validated about validation, Frame and Effects about
--   what is left alone; Creation, Created, Changed, Updated and Runs take one request each, Lost a class that
--   cannot be decoded, Histories one request of any kind, Validity and Safety any sequence of them.
-- - Templates: `CreateTemplate`, `UpdateTemplate` and `DeleteTemplate` of
--   src/restful/services/templates.go, in the same order; Ends and Renewed are about updates.
-- - Scenes: `copySceneRelation` (Copy, Copied, Inserted, Whole), on collections that are a parameter
--   (Collection), the validators and the pages (Requests), and `SendMessageByScene` (Sending), of
--   src/restful/services/scenes.go and messages.go.
-- - Message/Status: the validators and changes of a status in src/restful/services/messages.go;
--   Spec describes independently when a change is allowed, Lifecycle is about every sequence of
--   requests as the validators answer them, Paths compares the requests of gRPC and HTTP, Default is about new messages.
-- - Message/Store: `insertOneMessage`, `updateOneMessage`, `findMessageById` and the other functions
--   of messages.go on Redis and MongoDB; Laws and Cache say what they leave.
-- - Message/Validate, Message/Send: `validateSendMessage`, `sendMessage`, their second versions, and
--   the functions of the API that call them.
-- - Message/Change: `updateMessageStatus`, `deleteMessage`, their HTTP forms, and the functions of
--   the API that call them. Frame says what deliveries leave alone, Steps and Stored go from a request to
--   the next look at the message, Outcome is about errors, Linkage about linked messages.
-- - Socket: `sendMessageToUserSocket` and `redirectMessageToSockets` of messages.go and
--   `handleBroadcastNotification` of src/restful/services/server.go. Removal is the loop that takes
--   the reached receivers out of a slice, with the array under the slice.
-- - Socket/Commands: `addToBlacklist`, `removeFromBlacklist`, `addToWhitelist`,
--   `removeFromWhitelist`, `changeFilteringMode` and `addConfiguration` of messages.go, and
--   `deleteConfiguration` (Delete), as `handleNewMessage` dispatches them (Run); Lists, Keeps and Run
--   are about the lists of a connection, Silence about what it then receives, Users about Redis.
-- - Go, World, Prelude: how Go functions end (a value, an error, a panic), what they read and
--   write, and shared names.
-- - Tests: small inputs, and the theorems applied to them.
--
-- Redis and MongoDB are a parameter, the record `Backend` of Backend/Defs on the documents of
-- Backend/Documents, with the laws `IsLawful`: what was written is read and nothing else changes, and
-- an id is inserted once. A write may fail, and a reading of a class or a template may fail and then
-- finds none, as the code takes it; where a theorem is about what is read, it has the hypothesis
-- that the reading does not fail (`Answers`), or speaks of what is stored. A stored class of which an
-- action has a query or a body that is not empty cannot be decoded (`decodes`), so no reading finds
-- it. The readings of a copied application may stop early, and its deletions may fail.
-- Backend/Memory is an instance. Parsing of templates and of addresses and
-- the senders that call other services are the record `External` of Message/External. The clock and
-- new ids are arguments.
--
-- Go visits a map in any order; the model takes the order of insertion. A channel is the list of the
-- frames that were put in: its bound of 256, the goroutines that read it and the locks are not
-- modelled. A number in milliseconds is what MongoDB keeps of a time. Loops are structural, so there
-- is no fuel; the one loop that changes the slice it ranges over runs the number of rounds that Go
-- fixes before the first.
--
-- The functions that change a message return an error only, as in the code; what they leave in the
-- caller's message, whose targets the redirection moves, is not modelled.
--
-- Not modelled: queries (aggregation pipelines that MongoDB runs), the creation and change of one
-- scene, the opening and closing of a socket, the senders,
-- the controllers, the framework.
pub mod Backend
pub mod Common
pub mod Configuration
pub mod Crypto
pub mod Go
pub mod Message
pub mod Models
pub mod Prelude
pub mod Scenes
pub mod Socket
pub mod Templates
pub mod Tests
pub mod World
