-- ===== src/Lib.antt =====
-- morign: a verification library for the Go service morign, an assistant that answers chats with a
-- language model and tools.
--
-- The program. A request or a channel message passes the gate of chat turns, which is there to let
-- each idempotency key be executed once. The agent loop then asks the model and runs the tool
-- calls of its answers in batches; a batch runs concurrently, and each call goes through the
-- registry, whose policy says which tools the caller may use. Results that are too long are cut
-- and their full text is written to a table of tool records, from which a built-in tool reads it
-- page by page. The history of a conversation is a list in Redis, and documents come into the
-- knowledge base by import tasks, which a worker takes one after another. The models are reached
-- through providers, which turn messages into the form of a provider and its stream into events;
-- what is to be kept of an event goes through the runner. Users have memories, which tools of the
-- model list, store and forget, and skills, whose index goes into the prompt. Tools of the model
-- also find and call the capabilities of the business system, which come from its API documents. A
-- message of a chat platform arrives through a channel, is taken as a command or passed to the
-- gate with its conversation, and is answered in chunks.
--
-- The files.
--   Base           shared helpers: tests, lists, texts, maps, results, decimal numbers.
--   Words          pkg/utils/words/text.go.
--   Llm            pkg/services/llm/types.go and event.go.
--   Agent          pkg/services/agent: Truncate, ResultText, ToolCalls and Batch are tool_executor.go
--                  and tool_seq.go; Loop is agent_loop.go; Stream is stream.go.
--   Turn           pkg/web/api/handle_turn.go and the turns of pkg/services/stores/convo_x.go. Race
--                  has the same gate as three calls of the store, which requests interleave.
--   Tools          pkg/services/tools: policy.go (Tools), registry.go and connection.go (Calls,
--                  Servers).
--   Imports        the import tasks of pkg/services/stores/corpus_x.go; Worker is import_worker.go.
--   History        pkg/services/stores/conversation.go and pkg/models/aigc/history.go.
--   Records        pkg/services/stores/convo_record_x.go.
--   Provider       pkg/services/llm: Anthropic (with Convert for the messages) is anthropic.go, OpenAi is
--                  openai.go.
--   Runner         pkg/services/runner/runner.go; Adapters is pkg/services/stores/event_adapter.go.
--   Memory         the memories of pkg/services/stores/convo_x.go and pkg/models/convo; Tools has the
--                  tools of the model.
--   Channel        the replies of pkg/web/api/handle_platform.go; Handler is its MessageHandler, with
--                  commands.go (Commands) and the session keys of pkg/services/stores/conversation.go;
--                  Guards is allowlist.go and dedup.go of pkg/services/channels; Wecom is
--                  wecom/websocket.go there, with the answers to what was sent (Acks), the heartbeat
--                  (Beats) and the chunks (Split).
--   Web            the streaming reply of pkg/web/api/handle_convo.go; Chat is its way from a request to
--                  the run, with the keys of handle_turn.go.
--   Skills         pkg/services/stores/skills_x.go (Files for the files of a skill),
--                  pkg/services/agent/skill_inject.go and the frontmatter of
--                  pkg/models/skills/skills_x.go.
--   Capability     the table of pkg/services/stores/capability_x.go and capability_gen.go and the model
--                  of pkg/models/capability; Documents is the import, Match the matching and ranking,
--                  Invoke is capability_invoker.go.
--   Tests          runs on concrete inputs.
-- A record of the source is a record, an operation a function of the same name in snake_case that takes
-- the state and returns the new one; a handler of many branches is a chain of functions by clauses.
--
-- Conventions. A text is the list of its characters. A database or Redis call that may fail takes
-- its failure from a record of faults, so the theorems speak of every pattern of failures.
-- Goroutines are the order in which they end; concurrent requests are the order of their store
-- calls. The model, the tools, the hooks, the JSON codec, the hash, embeddings and the nearest
-- vectors, the quoting of Go, its Unicode tables beyond ASCII, the CSV reader and the remote
-- servers are arguments. Numbers of the source that are lengths, sequence numbers or durations are
-- natural numbers; the source stays far below the bounds of its 64-bit integers.
--
-- Bounds. The loop of the agent is recursion on the rounds that are left, which are MaxLoop at the
-- start, as in the source. The worker runs for ever; its model runs for a number of turns, and the
-- theorem says how many are enough. Reading a text page by page is given the number of pages, and
-- the theorem says how many are enough. The loop that splits a message into chunks runs on fuel as
-- long as its text, which is enough since each chunk has at least one byte: the chunks make up the
-- text. Nothing else runs on fuel.
--
-- Not modelled: most HTTP handlers and the requests, most of the generated stores and models,
-- which the database library does the work of; WeCom over HTTP and Feishu, which are network
-- protocols with encryption; the recall of memories and the matching of documents, which are
-- floating point; the decoding of API documents and the YAML of skills; authentication and
-- settings, which are input and output; logging and telemetry in what is modelled.
mod Base
pub mod Words
pub mod Llm
pub mod Agent
pub mod Turn
pub mod Tools
pub mod Imports
pub mod History
pub mod Records
pub mod Provider
pub mod Runner
pub mod Memory
pub mod Channel
pub mod Web
pub mod Skills
pub mod Capability
mod Tests
