-- ===== src/Lib.antt =====
-- A Crossplane provider for MongoDB Atlas organizations and AWS VPC endpoints: the Organization
-- controller, on which the provider's behaviour rests, with the Atlas client and the AWS client that it
-- calls, and the VPC endpoint controller with the client of EC2 that it calls.
--
-- Files, and what of the repository they model:
--   Go            what the code uses of Go: errors and their texts (internal/clients/mongodb/client.go's
--                 error types, errors.Wrap, the Kubernetes API errors), a monad for code that returns an
--                 error or panics, encoding/json's decoding of values, and net/url's escapes.
--   Api           The types of the resources: Organization is
--                 apis/organization/v1alpha1/organization_types.go, Connectivity is
--                 apis/connectivity/v1alpha1/vpcendpoint_types.go, and ProviderConfig is
--                 apis/v1alpha1/providerconfig_types.go.
--   Mongo         internal/clients/mongodb/client.go: Service has the types and the interface, Http the
--                 request and the classification of replies, Payload the documents, Client the methods.
--   Aws           internal/clients/aws/client.go: Secrets is the client as the controller uses it,
--                 Client its methods.
--   Atlas         internal/clients/atlas/organization.go, the older Atlas client, which no controller uses.
--   Organization  internal/controller/organization/organization.go. Platform is the environment;
--                 Names and Errors are the helper functions; Secrets, Status and Network the steps that
--                 several handlers share; Connect makes the clients; Observe, Create, Update and Delete
--                 are the four handlers, Reconcile is their runs in any order, and Panics their nil
--                 dereferences. The folder of a module holds what is proved of it.
--   Vpc           Client is internal/clients/connectivity/connectivity.go; Endpoint and Connect are
--                 internal/controller/vpcendpoint/vpcendpoint.go, its handlers and its `Connect`; Platform
--                 is their environment.
--   Provider      the start of the provider: cmd/provider/main.go, apis/mongodb.go, and the Setup functions of
--                 internal/controller. Kinds is the groups of apis/*/groupversion_info.go, Platform is what
--                 the libraries answer.
--   Tests         a concrete environment, and the theorems at concrete inputs.
--
-- How the handlers are modelled. A handler is a function of a state: the calls made so far, latest
-- first, and the resource `cr` that it was given by reference. Every call of the Kubernetes API, of
-- Atlas or of AWS is recorded in the state, and `Platform` answers it as a function of the calls
-- before it, so that a service may change its answers at any time: conflicts, lost updates, time and
-- concurrent writers are all among the answers. A handler returns a value, fails with an error, or
-- panics (a nil dereference), and in each case the state that it leaves is kept. A function of the
-- source is a definition of the same name in snake_case; where a function is long, its blocks are
-- definitions of their own, composed as the source composes them. A successful update of the
-- Kubernetes API overwrites the object that was sent, as the client does.
--
-- The handlers take the two clients by their interfaces, `Service` and `SecretsClient`; `new_service` and
-- `new_client` fill these with the methods of the source, and Organization.Create.Search and
-- Organization.Delete.Outage join the two. A method of the Atlas client makes at most one request of a `Transport`;
-- `PutSecret` passes the state of the account from its creation to its update.
--
-- Parameters. In `Transport`: the exchange of a request for a reply (digest authentication, redirects
-- and timeouts are behind it), the check of a request before it is sent, and the test for RFC 3339
-- times. In `SecretsManager`: the AWS API; `IsStore` states that what it accepted to write is what it
-- then reads. In `Platform`: the Kubernetes client, the Atlas services by credentials, the AWS client
-- by region, the clock, the functions of crossplane-runtime's package meta, `SetConditions`, and the
-- order in which Go ranges over a map. `IsLawful` states what some theorems need of them: an external
-- name that is set can be read back, setting it keeps the object's name, and a range over a map visits
-- its keys. `KeepsStatus` states that the server's answer to a status update has the status that was
-- sent, `IsHonest` that a search by name that finds nothing tells that no creation of the name was
-- accepted since the last accepted deletion, `Accepts` that Atlas accepts additions, and removals of
-- addresses that are not empty. `Cooperates` states of one organization and its credentials that Atlas
-- accepts the enforcement and finds their key, and that the server answers the object that it was sent,
-- which is all that `KeepsSent` states; the Atlas client meets `Accepts` and `Cooperates` in the tests.
-- `ReadsBack` states that a secret that was written last is read,
-- and `IsClear` that no error is mistaken for an outage or a missing secret. In `Vpc.Platform`: EC2,
-- the Kubernetes client, the SDK's configuration, and the `select` of the timer and the context. In
-- `Atlas`: the exchange of a request for a reply, by the requests before it. The text that `%q` gives
-- is an argument. In `Provider.Platform`: the parsed command line, the answers to the calls of the
-- libraries, by the calls before them, the options that crossplane-runtime makes for
-- controller-runtime, whose type is a parameter too, and the names of kinds and controllers;
-- `IgnoresPoll` states that these options do not have the poll interval. A library function that has no
-- error to return panics where it does not accept its arguments.
--
-- Runs in any order. `Reachable` relates the states before and after the handlers, the edits of a resource
-- but for its status, and the readings of it with the status of any earlier update, accepted or lost; a
-- handler may stop anywhere, and calls may answer anything. The loop that waits for a VPC endpoint is
-- recursion on the rounds that are left of the 120 that the code makes, and needs no other fuel.
--
-- Conventions. A nil slice and an empty one are the same list, and are written as `[]`. JSON numbers
-- are natural numbers, and a field that is repeated in an object is read in order. A nil error is
-- `none` in the classification functions. A nil pointer to an optional field is `none`. Secrets hold
-- JSON documents as values, so the bytes that encoding/json writes are not modelled. Error texts are
-- the source's: errors.Wrap puts the message before the error's text. `decimal` prints a number on
-- fuel one above the number; each round divides it by ten, so that the fuel is enough. Counters are
-- native numbers: the attempt counter is a Go int that would overflow after 2 ^ 63 attempts. Texts
-- are sequences of code points, and lengths and slices count bytes.
--
-- Not modelled: logging, but for the slice of the access key that a log line of the VPC endpoint
-- controller makes; contexts and deadlines, which show as errors of the calls; Disconnect of the
-- controllers, which does nothing; the test of a managed resource's type; the status of a ProviderConfig
-- and its usages, which crossplane-runtime keeps; generated code, and the feature flag that no code reads.
pub mod Prelude
pub mod Go
pub mod Api
pub mod Mongo
pub mod Aws
pub mod Atlas
pub mod Organization
pub mod Provider
pub mod Vpc
mod Tests
