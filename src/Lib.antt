-- ===== src/Lib.antt =====
-- The core of the Coder extension for VS Code, modelled from its TypeScript sources.
--
-- The program connects an editor to a Coder deployment. A deployment manager keeps the session: it
-- verifies credentials before it signs in, reacts to logins, logouts, tokens that change and other
-- windows, and resets the API client, the OAuth session manager and the editor's contexts. Watchers
-- of the deployment read from reconnecting WebSockets, which retry with an exponential backoff, ask
-- for a refresh of the client certificate when a TLS alert calls for one, and report telemetry with
-- normalized routes. The URLs of deployments are kept as a history. The Coder CLI is run with flags
-- that carry the session, quoted for a shell where one reads them, and the status bar shows how the
-- connection to a workspace fares. Telemetry events are appended to local files.
--
-- Base: the shared vocabulary. Library names, Boolean tests on native numbers, lists, and texts as
-- lists of UTF-16 code units with the string methods that the sources use.
-- Websocket: src/websocket/codes.ts (Codes), src/websocket/reconnectingWebSocket.ts (State for
-- `reduceState`, Socket for the fields, Ops for the methods, Steps for the listeners, timers and
-- promises that call them) and src/instrumentation/websocket.ts (Telemetry). A method that awaits is
-- several functions, from one await to the next; `Event` lists what can resume the object, and `run`
-- takes any sequence of events, so every interleaving of the event loop is a run. What surrounds the
-- object, its timers, pending promises and open streams, is the record `Runtime`. Handlers are taken
-- to make no synchronous call back. Numbers of milliseconds are natural numbers, a delay is counted
-- in the fractions that the jitter and the random draw have, and a clock never runs backwards.
-- Deployment: src/deployment/types.ts and src/deployment/sessionStore.ts (Session), and
-- src/deployment/deploymentManager.ts with src/instrumentation/deployment.ts (Manager for the methods,
-- Events for the listeners and the awaits that settle). An await is a task, settled later by an event
-- in any order. The collaborators are what the manager writes into them; the answers of the API and of
-- the secret storage come with the events.
-- Errors.ClientCertificate: src/error/clientCertificateError.ts, which error is which TLS alert.
-- Lower case is taken on ASCII letters.
-- Logging.Routes: src/logging/routeNormalization.ts. The URL parser is a parameter.
-- Core: src/core/mementoManager.ts, its URL history (UrlHistory) and the start-up mode that it keeps
-- for the next connection (StartupMode); and src/core/secretsManager.ts, the secrets of each deployment
-- with their pruning and the migration (Secrets).
-- Workspace: src/remote/workspaceStateMachine.ts (StateMachine, Process), the lazy log streams of
-- src/api/workspace.ts (LazyStream), `maybeAskAgent` of src/promptUtils.ts (Types), the agent's part of
-- src/instrumentation/workspace.ts (AgentTelemetry), and `waitForWorkspaceReady` and `resolveAgent` of
-- src/remote/remote.ts (Driver). A call of the machine runs to its end with the answers its awaits get,
-- since the loop that drives it runs one at a time.
-- Workspace.Monitor: src/workspace/workspaceMonitor.ts with src/settings/notifications.ts, and
-- Workspace.StateTelemetry: the state that src/instrumentation/workspace.ts observes for it.
-- Logging.HttpRequests: src/logging/httpRequestsTelemetry.ts, the requests rolled up by window.
-- Remote.SshMonitor: src/remote/sshProcess.ts (Steps for what resumes its loops), with the telemetry of
-- src/instrumentation/ssh.ts (Remote.SshTelemetry).
-- Remote.SshConfig: the block that src/remote/sshConfig.ts keeps in the user's SSH config, on the text of
-- the file; Merging for the merge of its values with overrides.
-- Oauth: src/oauth/sessionManager.ts with src/oauth/utils.ts, src/oauth/errors.ts and
-- src/oauth/constants.ts: Tokens for what is stored and sent, Session for the methods, Events for the
-- listener, the timers and the awaits that settle.
-- Util.Shell: the quoting of arguments in src/util.ts; Posix is an independent reader of shell words.
-- Settings.Cli: src/settings/cli.ts and the header arguments of src/settings/headers.ts, which build
-- the flags for the Coder CLI; paths in the user's flags are already expanded.
-- Api.AuthInterceptor: src/api/authInterceptor.ts, which recovers requests that came back with 401 by
-- an OAuth refresh or a prompt that all of them share.
-- Api.UpdateParameters: src/api/updateParameters.ts, the parameters asked for before an update.
-- Telemetry.LocalSink: src/telemetry/sinks/localJsonlSink.ts, which buffers telemetry events and appends
-- them to the session's files. A run on its flush chain and each await of an append is an event.
-- Telemetry.Retention: which old files the same sink deletes.
-- Remote.NetworkStatus: src/remote/networkStatus.ts, the debounced warning of a slow connection.
--
-- No function needs fuel: loops of the sources run over lists and are structural, and the retry loops
-- are sequences of events.
--
-- Not modelled: the rest of the API client, the OAuth login and the metadata client, the CLI manager,
-- the rest of the remote set-up, the rest of the telemetry pipeline, commands, views and webviews.
-- They are mostly input and output of the editor, processes or the network around the parts above.
mod Base
pub mod Core
pub mod Errors
pub mod Logging
pub mod Deployment
pub mod Websocket
pub mod Util
pub mod Remote
pub mod Settings
pub mod Telemetry
pub mod Api
pub mod Workspace
pub mod Oauth
