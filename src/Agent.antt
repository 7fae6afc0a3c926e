-- ===== src/Agent.antt =====
-- pkg/services/agent: the agent loop, the execution of a batch of tool calls, the cut of long tool
-- results and the streaming of answers.
pub mod Truncate
pub mod ResultText
pub mod ToolCalls
pub mod Batch
pub mod Loop
pub mod Stream
